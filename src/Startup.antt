-- ===== src/Startup.antt =====
-- The order in which main.go sets up the manager.
pub mod Registered
use fluent_pvc_operator.Api.{owner_controller_field}
use fluent_pvc_operator.Setup.{
  ◌>>=◌, Step, Report, Wiring, done, step, Manager, steps, outcome, load_config, new_manager,
  index_jobs, index_bindings, add_watcher, complete, register_webhook, add_healthz_check,
  add_readyz_check, start_manager, exit_on, tick_length, fluent_pvc_controller, check_and_start,
  binding_controller, claim_controller, pod_controller, setup_fluent_pvcs, setup_claims, setup_pods,
  setup_pod_webhook, setup_fluent_pvc_webhook, setup_bindings, with_manager, is_ready, main,
  register_all,
}
use fluent_pvc_operator.Effect.{ret}
use fluent_pvc_operator.Webhooks.Admission.{Codec}
use fluent_pvc_operator.Controllers.Utils.{
  index_job_by_owner_fluent_pvc_binding, index_fluent_pvc_binding_by_owner_fluent_pvc,
}
use fluent_pvc_operator.Controllers.Bindings.{list_limit}
use fluent_pvc_operator.Kube.{Library, Error}
use fluent_pvc_operator.Prelude.{
  ℕ, suc, String, ◌≡◌, refl, ap, Option, none, some, List, [], ◌∷◌, if◌then◌else◌, ◌==◌, is_some,
  Bool-cases, inl, inr,
}
use fluent_pvc_operator.Controllers.Bindings
use fluent_pvc_operator.Controllers.Claims
use fluent_pvc_operator.Controllers.FluentPvcs
use fluent_pvc_operator.Controllers.Pods
use fluent_pvc_operator.Webhooks.PodMutator
use fluent_pvc_operator.Webhooks.PodValidator
use fluent_pvc_operator.Webhooks.FluentPvcValidator

-- The error in a report, if there is one.
abbrev pub error_of : (s : Step) → Report s → Option Error
error_of (register_webhook path handler) r = none
error_of (load_config f) r = r
error_of new_manager r = r
error_of (index_jobs field f) r = r
error_of (index_bindings field f) r = r
error_of (add_watcher limit tick) r = r
error_of (complete c) r = r
error_of add_healthz_check r = r
error_of (add_readyz_check ready) r = r
error_of start_manager r = r

-- The steps of a plan up to the first that fails, which is the last one taken.
abbrev pub up_to_failure : Manager → ℕ → List Step → List Step
up_to_failure mgr n [] = []
up_to_failure mgr n (s ∷ p) =
    let rest = up_to_failure mgr (suc n) p in
    s ∷ (if is_some (error_of s (mgr n s)) then [] else rest)

abbrev pub exit_status : Manager → ℕ → List Step → ℕ
exit_status mgr n [] = 0
exit_status mgr n (s ∷ p) =
    let rest = exit_status mgr (suc n) p in if is_some (error_of s (mgr n s)) then 1 else rest

-- A program takes the steps of a plan until one fails.
data Takes (w : Wiring ℕ) (p : List Step) : Type 0 where
  takes :
      ((mgr : Manager) (n : ℕ)
        → (steps mgr n w ≡ up_to_failure mgr n p) × (outcome mgr n w ≡ exit_status mgr n p))
      → Takes w p

done-Takes : Takes (done 0) []
done-Takes = takes (λ mgr n. (refl, refl))

-- After a report a program takes the rest of a plan, or ends with an error.
abbrev GoesOn : Option Error → Wiring ℕ → List Step → Type 0
GoesOn none w p = Takes w p
GoesOn (some e) w p = w ≡ done 1

on_error :
    (k : Option Error → Wiring ℕ) {p : List Step}
    → Takes (k none) p
    → ((e : Error) → k (some e) ≡ done 1)
    → (r : Option Error) → GoesOn r (k r) p
on_error k h stop none = h
on_error k h stop (some e) = stop e

after_report :
    (r : Option Error) (w : Wiring ℕ) (p : List Step) (mgr : Manager) (n : ℕ)
    → GoesOn r w p
    → (steps mgr n w ≡ (if is_some r then [] else up_to_failure mgr n p))
      × (outcome mgr n w ≡ (if is_some r then 1 else exit_status mgr n p))
after_report none w p mgr n (takes h) = h mgr n
after_report (some e) w p mgr n h = (ap (steps mgr n) h, ap (outcome mgr n) h)

step-Takes :
    (s : Step) {k : Report s → Wiring ℕ} {p : List Step}
    → ((r : Report s) → GoesOn (error_of s r) (k r) p)
    → Takes (step s k) (s ∷ p)
step-Takes s {k} {p} h = takes (λ mgr n.
    let (v, r) = after_report (error_of s (mgr n s)) (k (mgr n s)) p mgr (suc n) (h (mgr n s)) in
    (ap (λ t. s ∷ t) v, r))

module _ (codec : Codec) (l : Library) where
  -- The steps of a set-up in which nothing fails, after the file of the configuration.
  abbrev pub registrations : List Step
  registrations =
      index_bindings owner_controller_field (index_fluent_pvc_binding_by_owner_fluent_pvc l)
      ∷ complete (fluent_pvc_controller l)
      ∷ index_jobs owner_controller_field (index_job_by_owner_fluent_pvc_binding l)
      ∷ add_watcher list_limit tick_length
      ∷ complete (binding_controller l)
      ∷ complete (claim_controller l)
      ∷ complete (pod_controller l)
      ∷ register_webhook "/pod/validate" (λ req. ret (PodValidator.handle codec req))
      ∷ register_webhook "/pod/mutate" (PodMutator.handle codec l)
      ∷ register_webhook "/fluent-pvc/validate" (FluentPvcValidator.handle codec)
      ∷ add_healthz_check
      ∷ add_readyz_check is_ready
      ∷ start_manager
      ∷ []

  abbrev pub plan : List Step
  plan = new_manager ∷ registrations

  abbrev pub full_plan : String → List Step
  full_plan config_file = if config_file == "" then plan else load_config config_file ∷ plan

  check_and_start-Takes :
      Takes
        (check_and_start codec l)
        (add_healthz_check ∷ add_readyz_check is_ready ∷ start_manager ∷ [])
  unfolding check_and_start
  check_and_start-Takes = step-Takes add_healthz_check (
      on_error _
        (step-Takes (add_readyz_check is_ready)
          (on_error _ (step-Takes start_manager (on_error _ done-Takes (λ e. refl))) (λ e. refl)))
        (λ e. refl))

  setup_fluent_pvcs-Takes :
      (w : Wiring ℕ) (p : List Step)
      → Takes w p
      → Takes (setup_fluent_pvcs l >>= (λ e. exit_on e w)) (
          index_bindings owner_controller_field (index_fluent_pvc_binding_by_owner_fluent_pvc l)
          ∷ complete (fluent_pvc_controller l)
          ∷ p)
  unfolding setup_fluent_pvcs
  setup_fluent_pvcs-Takes w p h =
      step-Takes (index_bindings _ _)
        (on_error _ (step-Takes (complete _) (on_error _ h (λ e. refl))) (λ e. refl))

  setup_bindings-Takes :
      (w : Wiring ℕ) (p : List Step)
      → Takes w p
      → Takes (setup_bindings l >>= (λ e. exit_on e w)) (
          index_jobs owner_controller_field (index_job_by_owner_fluent_pvc_binding l)
          ∷ add_watcher list_limit tick_length
          ∷ complete (binding_controller l)
          ∷ p)
  unfolding setup_bindings
  setup_bindings-Takes w p h = step-Takes (index_jobs _ _) (
      on_error _
        (step-Takes (add_watcher _ _)
          (on_error _ (step-Takes (complete _) (on_error _ h (λ e. refl))) (λ e. refl)))
        (λ e. refl))

  setup_webhooks-Takes :
      (w : Wiring ℕ) (p : List Step)
      → Takes w p
      → Takes
          (setup_pod_webhook l codec
            >>= (λ e. exit_on e (setup_fluent_pvc_webhook l codec >>= (λ e. exit_on e w))))
          (register_webhook "/pod/validate" (λ req. ret (PodValidator.handle codec req))
            ∷ register_webhook "/pod/mutate" (PodMutator.handle codec l)
            ∷ register_webhook "/fluent-pvc/validate" (FluentPvcValidator.handle codec)
            ∷ p)
  unfolding setup_pod_webhook setup_fluent_pvc_webhook
  setup_webhooks-Takes w p h =
      step-Takes (register_webhook _ _)
        (λ _. step-Takes (register_webhook _ _) (λ _. step-Takes (register_webhook _ _) (λ _. h)))

  register_all-Takes : Takes (register_all codec l) registrations
  unfolding register_all setup_claims setup_pods
  register_all-Takes = setup_fluent_pvcs-Takes _ _ (
      setup_bindings-Takes _ _ (
        step-Takes (complete _) (
          on_error _
            (step-Takes (complete _)
              (on_error _ (setup_webhooks-Takes _ _ check_and_start-Takes) (λ e. refl)))
            (λ e. refl))))

  with_manager-Takes : Takes (with_manager codec l) plan
  unfolding with_manager
  with_manager-Takes = step-Takes new_manager (on_error _ register_all-Takes (λ e. refl))

  main-Takes : (config_file : String) → Takes (main codec l config_file) (full_plan config_file)
  unfolding main
  main-Takes f = elim (Bool-cases (f == "")) [
    | inl e ↦ rw e with_manager-Takes
    | inr e ↦ rw e (step-Takes (load_config f) (on_error _ with_manager-Takes (λ e. refl)))
  ]

  -- Whatever the manager answers: main takes the steps of the plan (the file of the configuration
  -- if one is named, the manager, the index of bindings, the FluentPVC controller, the index of
  -- jobs, the watcher, the binding controller, the controllers of claims and of pods, the three
  -- webhooks, the two checks, the start) in order up to the first that fails, and exits with 1 if
  -- one fails and with 0 if none does.
  pub main-follows_plan :
      (mgr : Manager) (config_file : String)
      → (steps mgr 0 (main codec l config_file) ≡ up_to_failure mgr 0 (full_plan config_file))
        × (outcome mgr 0 (main codec l config_file) ≡ exit_status mgr 0 (full_plan config_file))
  main-follows_plan mgr f = elim (main-Takes f) [ takes h ↦ h mgr 0 ]
