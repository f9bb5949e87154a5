-- ===== src/Lifecycle/Completions.antt =====
-- Where the condition of a finalizer job's success or failure comes from,
-- controllers/fluentpvcbinding_controller.go.
use fluent_pvc_operator.Lifecycle.Histories.{All-if}
use fluent_pvc_operator.Controllers.Bindings.{
  on_jobs, update_condition_by_finalizer_job_status, on_completed, on_pod_and_claim,
  on_pod_without_claim, on_found, on_unborn, delete_fluent_pvc_binding, decide, on_no_job,
  mark_applied, update_condition_out_of_use_pod_completed_pvc_found,
  update_condition_unknown_pod_and_pvc_not_found, on_many_jobs, is_lost,
  update_condition_out_of_use_pod_deleted_pvc_found, update_condition_unknown_pvc_lost,
  update_condition_ready_pod_found_pvc_found, is_protected,
}
use fluent_pvc_operator.Lifecycle.Saves.{
  MaySet, delete_fluent_pvc_binding-Saves, on_no_job-Saves, unknown_pod_running_pvc_not_found-Saves,
  unknown_pod_completed_pvc_not_found-Saves, mark_applied-Saves,
  out_of_use_pod_completed_pvc_found-Saves, unknown_pod_and_pvc_not_found-Saves,
  pod_missing_binding_pod_timeout-Saves, on_many_jobs-Saves, out_of_use_pod_deleted_pvc_found-Saves,
  unknown_pvc_lost-Saves, ready_pod_found_pvc_found-Saves,
}
use fluent_pvc_operator.Controllers.Utils.{is_job_succeeded, is_created_before, hour}
use fluent_pvc_operator.Lifecycle.Flags.{flags, holds, Flags}
use fluent_pvc_operator.Lifecycle.Rules.{Rules, Obeys, Saves, Saves-if}
use fluent_pvc_operator.Effect.{
  Call, Environment, update_binding_status, list_jobs, Program, calls, Ensures-calls,
}
use fluent_pvc_operator.Prelude.{
  ℕ, suc, Bool, true, false, ◌≡◌, refl, List, [], ◌∷◌, All, any, arith, Bool-cases, inl, inr,
  if◌then◌else◌, Option, not, ◌*◌, is_some, none, ◌&&◌, some,
}
use fluent_pvc_operator.Kube.{
  Library, LibraryLaws, Job, Reply, success, failure, PodPhase, Pod, PersistentVolumeClaim,
  pod_succeeded, pod_failed, pod_running,
}
use fluent_pvc_operator.Api.{
  FluentPvcBinding, is_condition_out_of_use, is_condition_pod_missing, is_condition_ready,
  is_condition_finalizer_job_succeeded,
}

-- The list of jobs had one job, and it has succeeded.
abbrev pub JobSucceeded : Environment → ℕ → FluentPvcBinding → Type 0
JobSucceeded env n b =
    (j : Job) × (env n (list_jobs b.meta.name) ≡ success (j ∷ [])) × (is_job_succeeded j ≡ true)

module _ (l : Library) where
  -- A call that stores a status with the condition of the job's success, or of its failure.
  abbrev pub stores_success : Call → Bool
  stores_success (update_binding_status c) = holds l c "FinalizerJobSucceeded"
  stores_success _ = false

  -- What a status that has the condition rests on.
  abbrev on_success : Type 0 → Rules
  on_success D = record {
    status = λ c. (flags l c).finalizer_job_succeeded ≡ true → D;
    object = λ _. Unit;
    deletion = Unit;
  }

  any-stores_success :
      (D : Type 0) (cs : List Call)
      → All (Obeys (on_success D)) cs
      → any stores_success cs ≡ true
      → D
  unfolding flags holds
  any-stores_success D [] h e = cc
  any-stores_success D (update_binding_status c ∷ cs) h e =
      elim (Bool-cases (holds l c "FinalizerJobSucceeded")) [
        | inl t ↦ h.0 t
        | inr f ↦ any-stores_success D cs h.1 (ground arith)
      ]
  any-stores_success D (_ ∷ cs) h e = any-stores_success D cs h.1 e

  module _ (laws : LibraryLaws l) (env : Environment) (n : ℕ) (b : FluentPvcBinding)
      (unfinished : (flags l b).finalizer_job_succeeded ≡ false) where
    abbrev F : Rules
    F = on_success (JobSucceeded env n b)

    -- Any other setter leaves the flag as it is.
    unmarked :
        {g : Flags}
        → g.finalizer_job_succeeded ≡ (flags l b).finalizer_job_succeeded
        → MaySet l laws F b g
    unmarked same c s done = absurd (ground (arith, s.new_flags))

    abbrev AllMarks : {A : Type 0} → ℕ → Program A → Type 0
    AllMarks k m = All (Obeys F) (calls env k m)

    Saves-AllMarks : {A : Type 0} (k : ℕ) (m : Program A) → Saves F m → AllMarks k m
    Saves-AllMarks k m h = Ensures-calls (Obeys F) (λ _. Unit {0}) env k m h

    on_jobs-AllMarks :
        (r : Reply (List Job))
        → env n (list_jobs b.meta.name) ≡ r
        → AllMarks (suc n) (on_jobs l b r)
    unfolding on_jobs
    on_jobs-AllMarks (failure x) e =
        Saves-AllMarks (suc n) (if l.is_not_found x then on_no_job l b else _) (
          Saves-if F (l.is_not_found x) _ _ (λ _. on_no_job-Saves l laws F b (unmarked refl))
            (λ _. tt))
    on_jobs-AllMarks (success []) e =
        Saves-AllMarks (suc n) (on_no_job l b) (on_no_job-Saves l laws F b (unmarked refl))
    on_jobs-AllMarks (success (j ∷ [])) e = Saves-AllMarks (suc n) (mark_applied l b j) (
        mark_applied-Saves l laws F b j
          (λ c s done. (j, e, ground (arith, s.new_flags, unfinished, done))))
    on_jobs-AllMarks (success (j ∷ j' ∷ js)) e =
        Saves-AllMarks (suc n) (on_many_jobs l b) (on_many_jobs-Saves l laws F b (unmarked refl))

    by_job_status-AllMarks : AllMarks n (update_condition_by_finalizer_job_status l b)
    unfolding update_condition_by_finalizer_job_status
    by_job_status-AllMarks = (tt, on_jobs-AllMarks (env n (list_jobs b.meta.name)) refl)

    on_completed-AllMarks : AllMarks n (on_completed l b)
    unfolding on_completed
    on_completed-AllMarks =
        All-if (Obeys F) env n (not (is_condition_out_of_use l b)) _ _
          (Saves-AllMarks n (update_condition_out_of_use_pod_completed_pvc_found l b)
            (out_of_use_pod_completed_pvc_found-Saves l laws F b (unmarked refl)))
          (λ _. by_job_status-AllMarks)

    on_pod_and_claim-AllMarks : (p : PodPhase) → AllMarks n (on_pod_and_claim l b p)
    unfolding on_pod_and_claim
    on_pod_and_claim-AllMarks pod_succeeded = on_completed-AllMarks
    on_pod_and_claim-AllMarks pod_failed = on_completed-AllMarks
    on_pod_and_claim-AllMarks _ = tt

    on_pod_without_claim-Saves : (p : PodPhase) → Saves F (on_pod_without_claim l b p)
    unfolding on_pod_without_claim
    on_pod_without_claim-Saves pod_running =
        unknown_pod_running_pvc_not_found-Saves l laws F b (unmarked refl)
    on_pod_without_claim-Saves pod_succeeded =
        unknown_pod_completed_pvc_not_found-Saves l laws F b (unmarked refl)
    on_pod_without_claim-Saves pod_failed =
        unknown_pod_completed_pvc_not_found-Saves l laws F b (unmarked refl)
    on_pod_without_claim-Saves _ = tt

    on_found-AllMarks :
        (pod : Option Pod) (pvc : Option PersistentVolumeClaim) → AllMarks n (on_found l b pod pvc)
    unfolding on_found
    on_found-AllMarks none none =
        Saves-AllMarks n (update_condition_unknown_pod_and_pvc_not_found l b)
          (unknown_pod_and_pvc_not_found-Saves l laws F b (unmarked refl))
    on_found-AllMarks none (some pvc) =
        All-if (Obeys F) env n (not (is_condition_out_of_use l b)) _ _
          (Saves-AllMarks n (update_condition_out_of_use_pod_deleted_pvc_found l b)
            (out_of_use_pod_deleted_pvc_found-Saves l laws F b (unmarked refl)))
          (λ _. by_job_status-AllMarks)
    on_found-AllMarks (some pod) none =
        Saves-AllMarks n (on_pod_without_claim l b pod.phase) (on_pod_without_claim-Saves pod.phase)
    on_found-AllMarks (some pod) (some pvc) =
        All-if (Obeys F) env n (not (is_condition_ready l b)) _ _
          (Saves-AllMarks n (update_condition_ready_pod_found_pvc_found l b)
            (ready_pod_found_pvc_found-Saves l laws F b (unmarked refl)))
          (λ _. on_pod_and_claim-AllMarks pod.phase)

    on_unborn-Saves : Saves F (on_unborn l b)
    unfolding on_unborn
    on_unborn-Saves = (
      tt,
      λ now.
          Saves-if F (is_created_before now b.meta (1 * hour)) _ _
            (λ _. pod_missing_binding_pod_timeout-Saves l laws F b (unmarked refl)) (λ _. tt),
    )

    delete-AllMarks : AllMarks n (delete_fluent_pvc_binding l b)
    delete-AllMarks =
        Saves-AllMarks n (delete_fluent_pvc_binding l b)
          (delete_fluent_pvc_binding-Saves l F tt b tt)

    decide-AllMarks :
        (pod : Option Pod) (pvc : Option PersistentVolumeClaim) → AllMarks n (decide l b pod pvc)
    unfolding decide
    decide-AllMarks pod pvc =
        All-if (Obeys F) env n (not (is_some pvc) && is_condition_pod_missing l b) _ _
          delete-AllMarks
          (λ _.
            All-if (Obeys F) env n (is_lost pvc) _ _
              (Saves-AllMarks n (update_condition_unknown_pvc_lost l b)
                (unknown_pvc_lost-Saves l laws F b (unmarked refl)))
              (λ _.
                All-if (Obeys F) env n (is_condition_finalizer_job_succeeded l b) _ _
                  (All-if (Obeys F) env n (is_protected l pvc) _ _ tt (λ _. delete-AllMarks))
                  (λ _.
                    All-if (Obeys F) env n (not (is_some pod) && not (is_condition_ready l b)) _ _
                      (Saves-AllMarks n (on_unborn l b) on_unborn-Saves)
                      (λ _. on_found-AllMarks pod pvc))))

    -- Whatever pod and claim were found and whatever the server answers: if the run of the decision
    -- on a binding without the condition of the job's success, from call n on, stores a status with
    -- that condition, then the jobs of the binding's name that the server lists at call n are just
    -- one, and it has succeeded.
    pub decide-stores_success :
        (pod : Option Pod) (pvc : Option PersistentVolumeClaim)
        → any stores_success (calls env n (decide l b pod pvc)) ≡ true
        → JobSucceeded env n b
    decide-stores_success pod pvc =
        any-stores_success (JobSucceeded env n b) (calls env n (decide l b pod pvc))
          (decide-AllMarks pod pvc)
