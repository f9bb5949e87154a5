-- ===== src/Lifecycle/Flags.antt =====
-- The conditions of a binding as seven flags, and what the setters of helpers.go do to them.
use fluent_pvc_operator.Prelude.{
  ℕ, String, Bool, true, false, ◌≡◌, refl, ◌==◌, List, if◌then◌else◌, ◌∷◌, [], arith,
}
use fluent_pvc_operator.Kube.{
  Library, LibraryLaws, Condition, ConditionStatus, status_is_true, merged_condition,
}
use fluent_pvc_operator.Api.{
  true_conditions, FluentPvcBinding, set_condition, reset_phase, reset_phase_of, sort_newest,
  gap_pass, set_phase_latest, set_condition_ready, set_condition_out_of_use,
  set_condition_finalizer_job_applied, set_condition_finalizer_job_succeeded,
  set_condition_finalizer_job_failed, set_condition_unknown, set_condition_pod_missing,
  set_condition_not_finalizer_job_applied, set_condition_not_finalizer_job_failed,
}

pub record Flags : Type 0 where
  pub ready : Bool
  pub out_of_use : Bool
  pub finalizer_job_applied : Bool
  pub finalizer_job_succeeded : Bool
  pub finalizer_job_failed : Bool
  pub unknown : Bool
  pub pod_missing : Bool

unfoldable pub holds : Library → FluentPvcBinding → String → Bool
holds l b t = l.is_status_condition_true b.status.conditions t

unfoldable pub flags : Library → FluentPvcBinding → Flags
unfolding holds
flags l b = record {
  ready = holds l b "Ready";
  out_of_use = holds l b "OutOfUse";
  finalizer_job_applied = holds l b "FinalizerJobApplied";
  finalizer_job_succeeded = holds l b "FinalizerJobSucceeded";
  finalizer_job_failed = holds l b "FinalizerJobFailed";
  unknown = holds l b "Unknown";
  pod_missing = holds l b "PodMissing";
}

conditions-reset_phase_of :
    (b : FluentPvcBinding) (cs : List Condition)
    → (reset_phase_of b cs).status.conditions ≡ b.status.conditions
unfolding reset_phase_of
conditions-reset_phase_of b [] = refl
conditions-reset_phase_of b (c ∷ cs) =
    conditions-set_phase_latest (sort_newest [] (gap_pass (c ∷ cs)))
  where
    conditions-set_phase_latest :
        (ds : List Condition) → (set_phase_latest b ds).status.conditions ≡ b.status.conditions
    conditions-set_phase_latest [] = refl
    conditions-set_phase_latest (d ∷ ds) = refl

conditions-reset_phase :
    (b : FluentPvcBinding) → (reset_phase b).status.conditions ≡ b.status.conditions
unfolding reset_phase
conditions-reset_phase b = conditions-reset_phase_of b (true_conditions b.status.conditions)

-- The condition that a setter hands to `meta.SetStatusCondition`.
abbrev pub undated : String → ConditionStatus → String → String → Condition
undated t status reason message = record {
  type = t;
  status = status;
  last_transition_time = 0;
  reason = reason;
  message = message;
}

pub conditions-set_condition :
    (l : Library) (now : ℕ) (b : FluentPvcBinding) (t : String) (status : ConditionStatus)
    (reason message : String)
    → (set_condition l now b t status reason message).status.conditions
      ≡ l.set_status_condition now b.status.conditions (undated t status reason message)
unfolding set_condition
conditions-set_condition l now b t status reason message = conditions-reset_phase _

meta-reset_phase_of :
    (b : FluentPvcBinding) (cs : List Condition) → (reset_phase_of b cs).meta ≡ b.meta
unfolding reset_phase_of
meta-reset_phase_of b [] = refl
meta-reset_phase_of b (c ∷ cs) = meta-set_phase_latest (sort_newest [] (gap_pass (c ∷ cs)))
  where
    meta-set_phase_latest : (ds : List Condition) → (set_phase_latest b ds).meta ≡ b.meta
    meta-set_phase_latest [] = refl
    meta-set_phase_latest (d ∷ ds) = refl

meta-reset_phase : (b : FluentPvcBinding) → (reset_phase b).meta ≡ b.meta
unfolding reset_phase
meta-reset_phase b = meta-reset_phase_of b (true_conditions b.status.conditions)

pub meta-set_condition :
    (l : Library) (now : ℕ) (b : FluentPvcBinding) (t : String) (status : ConditionStatus)
    (reason message : String)
    → (set_condition l now b t status reason message).meta ≡ b.meta
unfolding set_condition
meta-set_condition l now b t status reason message =
    let cs = l.set_status_condition now b.status.conditions (undated t status reason message) in
    meta-reset_phase (record b { status = record (b.status) { conditions = cs } })

module _ (l : Library) (laws : LibraryLaws l) (now : ℕ) (b : FluentPvcBinding) where
  -- After a condition is set, it holds exactly if its new status is true, and every other condition
  -- holds exactly if it held before.
  pub holds-set_condition :
      (t : String) (status : ConditionStatus) (reason message u : String)
      → holds l (set_condition l now b t status reason message) u
        ≡ (if t == u then status_is_true status else holds l b u)
  unfolding holds merged_condition
  holds-set_condition t status reason message u =
      let cs = b.status.conditions in
      let c = undated t status reason message in
      ground (
        arith,
        conditions-set_condition l now b t status reason message,
        laws.is_true-lookup (l.set_status_condition now cs c) u,
        laws.is_true-lookup cs u,
        laws.lookup-set now cs c u,
      )

  pub flags-set_ready :
      (reason message : String)
      → flags l (set_condition_ready l now b reason message) ≡ record (flags l b) { ready = true }
  unfolding flags set_condition_ready
  flags-set_ready reason message = simp holds-set_condition

  pub flags-set_out_of_use :
      (reason message : String)
      → flags l (set_condition_out_of_use l now b reason message)
        ≡ record (flags l b) { out_of_use = true }
  unfolding flags set_condition_out_of_use
  flags-set_out_of_use reason message = simp holds-set_condition

  pub flags-set_finalizer_job_applied :
      (reason message : String)
      → flags l (set_condition_finalizer_job_applied l now b reason message)
        ≡ record (flags l b) { finalizer_job_applied = true }
  unfolding flags set_condition_finalizer_job_applied
  flags-set_finalizer_job_applied reason message = simp holds-set_condition

  pub flags-set_finalizer_job_succeeded :
      (reason message : String)
      → flags l (set_condition_finalizer_job_succeeded l now b reason message)
        ≡ record (flags l b) { finalizer_job_succeeded = true }
  unfolding flags set_condition_finalizer_job_succeeded
  flags-set_finalizer_job_succeeded reason message = simp holds-set_condition

  pub flags-set_finalizer_job_failed :
      (reason message : String)
      → flags l (set_condition_finalizer_job_failed l now b reason message)
        ≡ record (flags l b) { finalizer_job_failed = true }
  unfolding flags set_condition_finalizer_job_failed
  flags-set_finalizer_job_failed reason message = simp holds-set_condition

  pub flags-set_unknown :
      (reason message : String)
      → flags l (set_condition_unknown l now b reason message)
        ≡ record (flags l b) { unknown = true }
  unfolding flags set_condition_unknown
  flags-set_unknown reason message = simp holds-set_condition

  pub flags-set_pod_missing :
      (reason message : String)
      → flags l (set_condition_pod_missing l now b reason message)
        ≡ record (flags l b) { pod_missing = true }
  unfolding flags set_condition_pod_missing
  flags-set_pod_missing reason message = simp holds-set_condition

  pub flags-set_not_finalizer_job_applied :
      (reason message : String)
      → flags l (set_condition_not_finalizer_job_applied l now b reason message)
        ≡ record (flags l b) { finalizer_job_applied = false }
  unfolding flags set_condition_not_finalizer_job_applied
  flags-set_not_finalizer_job_applied reason message = simp holds-set_condition

  pub flags-set_not_finalizer_job_failed :
      (reason message : String)
      → flags l (set_condition_not_finalizer_job_failed l now b reason message)
        ≡ record (flags l b) { finalizer_job_failed = false }
  unfolding flags set_condition_not_finalizer_job_failed
  flags-set_not_finalizer_job_failed reason message = simp holds-set_condition
