-- ===== src/Lifecycle/Deletions.antt =====
-- The deletion of a binding by its reconciler, controllers/fluentpvcbinding_controller.go.
use fluent_pvc_operator.Prelude.{
  ℕ, Bool, true, false, ◌≡◌, any, arith, Option, suc, refl, is_some, List, ◌⊎◌, none, some, ◌∷◌, [],
}
use fluent_pvc_operator.Kube.{
  Library, Job, PodPhase, PersistentVolumeClaim, Pod, Reply, pod_succeeded, pod_running, pod_failed,
  failure, success,
}
use fluent_pvc_operator.Api.{
  FluentPvcBinding, is_condition_pod_missing, is_condition_finalizer_job_succeeded,
}
use fluent_pvc_operator.Effect.{Call, Environment, calls, delete_binding, Program, list_jobs}
use fluent_pvc_operator.Controllers.Bindings.{
  mark_applied, mark_succeeded, mark_failed, unmark_failed, on_no_job, on_jobs,
  update_condition_by_finalizer_job_status, on_completed, on_pod_and_claim, on_pod_without_claim,
  on_found, on_unborn, decide, on_many_jobs, update_condition_out_of_use_pod_completed_pvc_found,
  update_condition_unknown_pod_and_pvc_not_found, update_condition_out_of_use_pod_deleted_pvc_found,
  update_condition_ready_pod_found_pvc_found, is_protected, is_lost,
}

abbrev pub is_deletion : Call → Bool
is_deletion (delete_binding b o) = true
is_deletion _ = false

-- Its pod never came and its claim is gone, or its job has succeeded and its claim, if it is
-- there, has lost the operator's finalizer and is not lost.
abbrev pub MayDelete : Library → FluentPvcBinding → Option PersistentVolumeClaim → Type 0
MayDelete l b pvc =
    ((is_some pvc ≡ false) × (is_condition_pod_missing l b ≡ true))
    ⊎ ((is_condition_finalizer_job_succeeded l b ≡ true)
        × (is_protected l pvc ≡ false)
        × (is_lost pvc ≡ false))

module _ (l : Library) (env : Environment) where
  abbrev Keeps : {A : Type 0} → ℕ → Program A → Type 0
  Keeps n m = any is_deletion (calls env n m) ≡ false

  unmark_failed-Keeps :
      (n : ℕ) (need : Bool) (b : FluentPvcBinding) → Keeps n (unmark_failed l need b)
  unfolding unmark_failed
  unmark_failed-Keeps n need b = ground arith

  mark_failed-Keeps :
      (n : ℕ) (need : Bool) (b : FluentPvcBinding) (j : Job) → Keeps n (mark_failed l need b j)
  unfolding mark_failed
  mark_failed-Keeps n need b j = ground arith

  mark_succeeded-Keeps :
      (n : ℕ) (need : Bool) (b : FluentPvcBinding) (j : Job) → Keeps n (mark_succeeded l need b j)
  unfolding mark_succeeded
  mark_succeeded-Keeps n need b j = grind (arith, mark_failed-Keeps)

  mark_applied-Keeps : (n : ℕ) (b : FluentPvcBinding) (j : Job) → Keeps n (mark_applied l b j)
  unfolding mark_applied
  mark_applied-Keeps n b j = grind (arith, mark_succeeded-Keeps)

  on_no_job-Keeps : (n : ℕ) (b : FluentPvcBinding) → Keeps n (on_no_job l b)
  unfolding on_no_job
  on_no_job-Keeps n b = grind (arith, unmark_failed-Keeps)

  on_jobs-Keeps : (n : ℕ) (b : FluentPvcBinding) (r : Reply (List Job)) → Keeps n (on_jobs l b r)
  unfolding on_jobs on_many_jobs
  on_jobs-Keeps n b (failure e) = ground (arith, on_no_job-Keeps n b)
  on_jobs-Keeps n b (success []) = on_no_job-Keeps n b
  on_jobs-Keeps n b (success (j ∷ [])) = mark_applied-Keeps n b j
  on_jobs-Keeps n b (success (j ∷ j' ∷ js)) = refl

  by_job_status-Keeps :
      (n : ℕ) (b : FluentPvcBinding) → Keeps n (update_condition_by_finalizer_job_status l b)
  unfolding update_condition_by_finalizer_job_status
  by_job_status-Keeps n b = on_jobs-Keeps (suc n) b (env n (list_jobs b.meta.name))

  on_completed-Keeps : (n : ℕ) (b : FluentPvcBinding) → Keeps n (on_completed l b)
  unfolding on_completed update_condition_out_of_use_pod_completed_pvc_found
  on_completed-Keeps n b = ground (arith, by_job_status-Keeps n b)

  on_pod_and_claim-Keeps :
      (n : ℕ) (b : FluentPvcBinding) (p : PodPhase) → Keeps n (on_pod_and_claim l b p)
  unfolding on_pod_and_claim
  on_pod_and_claim-Keeps n b pod_succeeded = on_completed-Keeps n b
  on_pod_and_claim-Keeps n b pod_failed = on_completed-Keeps n b
  on_pod_and_claim-Keeps n b _ = refl

  on_pod_without_claim-Keeps :
      (n : ℕ) (b : FluentPvcBinding) (p : PodPhase) → Keeps n (on_pod_without_claim l b p)
  unfolding on_pod_without_claim
  on_pod_without_claim-Keeps n b pod_running = refl
  on_pod_without_claim-Keeps n b _ = refl

  on_found-Keeps :
      (n : ℕ) (b : FluentPvcBinding) (pod : Option Pod) (pvc : Option PersistentVolumeClaim)
      → Keeps n (on_found l b pod pvc)
  unfolding on_found update_condition_unknown_pod_and_pvc_not_found
      update_condition_out_of_use_pod_deleted_pvc_found update_condition_ready_pod_found_pvc_found
  on_found-Keeps n b none none = refl
  on_found-Keeps n b none (some pvc) = ground (arith, by_job_status-Keeps n b)
  on_found-Keeps n b (some pod) none = on_pod_without_claim-Keeps n b pod.phase
  on_found-Keeps n b (some pod) (some pvc) = ground (arith, on_pod_and_claim-Keeps n b pod.phase)

  on_unborn-Keeps : (n : ℕ) (b : FluentPvcBinding) → Keeps n (on_unborn l b)
  unfolding on_unborn
  on_unborn-Keeps n b = ground arith

  -- Whatever pod and claim were found and whatever the server answers, the decision deletes a
  -- binding only if the claim is gone and the binding says that its pod never came, or if the
  -- finalizer job has succeeded and the claim, if it is there, is not lost and no longer has the
  -- operator's finalizer.
  pub decide-deletes_only :
      (n : ℕ) (b : FluentPvcBinding) (pod : Option Pod) (pvc : Option PersistentVolumeClaim)
      → any is_deletion (calls env n (decide l b pod pvc)) ≡ true
      → MayDelete l b pvc
  unfolding decide
  decide-deletes_only n b pod pvc h =
      ground (arith, on_unborn-Keeps n b, on_found-Keeps n b pod pvc)
