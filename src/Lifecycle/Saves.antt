-- ===== src/Lifecycle/Saves.antt =====
-- The statuses that the parts of the binding reconciler store,
-- controllers/fluentpvcbinding_controller.go.
use fluent_pvc_operator.Lifecycle.Rules.{Rules, Saves, Saves-if}
use fluent_pvc_operator.Lifecycle.Settings.{
  Sets, Sets-as, Sets-trans, set_not_finalizer_job_failed-Sets, set_unknown-Sets,
  set_pod_missing-Sets, set_out_of_use-Sets, set_ready-Sets, set_finalizer_job_failed-Sets,
  set_finalizer_job_succeeded-Sets, set_finalizer_job_applied-Sets, Sets-same,
  set_not_finalizer_job_applied-Sets,
}
use fluent_pvc_operator.Prelude.{Bool, true, false, ◌&&◌, ◌||◌, ◌≡◌, arith, not}
use fluent_pvc_operator.Kube.{Library, LibraryLaws, Job, Reply, success, failure}
use fluent_pvc_operator.Api.{
  FluentPvcBinding, is_condition_finalizer_job_applied, is_condition_finalizer_job_failed,
  fluent_pvc_binding_finalizer_name, set_condition_not_finalizer_job_failed,
}
use fluent_pvc_operator.Controllers.Utils.{is_job_succeeded, is_job_failed}
use fluent_pvc_operator.Controllers.Bindings.{
  save, save_if, mark_failed, mark_succeeded, mark_applied, job_failed_reason, job_succeeded_reason,
  job_applied_reason, job_failed_message, job_succeeded_message, job_applied_message, unmark_failed,
  on_no_job, on_many_jobs, delete_stored, on_unprotected, delete_fluent_pvc_binding, no_job_reason,
  many_jobs_reason, no_job_message, many_jobs_message, update_condition_unknown_pvc_lost,
  update_condition_unknown_pod_and_pvc_not_found,
  update_condition_unknown_pod_running_pvc_not_found,
  update_condition_unknown_pod_completed_pvc_not_found,
  update_condition_pod_missing_binding_pod_timeout,
  update_condition_out_of_use_pod_deleted_pvc_found,
  update_condition_out_of_use_pod_completed_pvc_found, update_condition_ready_pod_found_pvc_found,
}
use fluent_pvc_operator.Effect.{call, time_now}
use fluent_pvc_operator.Lifecycle.Flags.{Flags, flags, holds}

-- No job counts as both succeeded and failed.
pub succeeded-or-failed : (j : Job) → (is_job_succeeded j && is_job_failed j) ≡ false
unfolding is_job_succeeded is_job_failed
succeeded-or-failed j = ground arith

module _ (l : Library) (laws : LibraryLaws l) (F : Rules) where
  -- Every status of the same object with these flags may be stored.
  abbrev pub MaySet : FluentPvcBinding → Flags → Type 0
  MaySet b g = (c : FluentPvcBinding) → Sets l b c g → F.status c

  pub save-Saves : (b : FluentPvcBinding) → F.status b → Saves F (save b)
  unfolding save
  save-Saves b h = (h, λ r. tt)

  pub save_if-Saves : (need : Bool) (b : FluentPvcBinding) → F.status b → Saves F (save_if need b)
  unfolding save_if
  save_if-Saves true b h = save-Saves b h
  save_if-Saves false b h = tt

  pub mark_failed-Saves :
      (need : Bool) (b : FluentPvcBinding) (j : Job)
      → MaySet b (record (flags l b) {
        finalizer_job_failed = (flags l b).finalizer_job_failed || is_job_failed j;
      })
      → Saves F (mark_failed l need b j)
  unfolding mark_failed
  mark_failed-Saves need b j h =
      Saves-if F (is_job_failed j) _ _
        (λ e. (
          tt,
          λ now. save-Saves _ (
              h _ (
                Sets-as
                  (set_finalizer_job_failed-Sets l laws now b job_failed_reason job_failed_message)
                  (ground arith))),
        ))
        (λ e. save_if-Saves need b (h b (Sets-same l b (ground arith))))

  pub mark_succeeded-Saves :
      (need : Bool) (b : FluentPvcBinding) (j : Job)
      → MaySet b (record (flags l b) {
        finalizer_job_succeeded = (flags l b).finalizer_job_succeeded || is_job_succeeded j;
        finalizer_job_failed = (flags l b).finalizer_job_failed || is_job_failed j;
      })
      → Saves F (mark_succeeded l need b j)
  unfolding mark_succeeded
  mark_succeeded-Saves need b j h =
      Saves-if F (is_job_succeeded j) _ _
        (λ e. (
          tt,
          λ now. mark_failed-Saves true _ j (λ d s. h d (
              Sets-trans
                (set_finalizer_job_succeeded-Sets l laws now b job_succeeded_reason
                  job_succeeded_message)
                s (λ p. ground arith))),
        ))
        (λ e. mark_failed-Saves need b j (λ d s. h d (Sets-as s (ground arith))))

  pub mark_applied-Saves :
      (b : FluentPvcBinding) (j : Job)
      → MaySet b (record (flags l b) {
        finalizer_job_applied = true;
        finalizer_job_succeeded = (flags l b).finalizer_job_succeeded || is_job_succeeded j;
        finalizer_job_failed = (flags l b).finalizer_job_failed || is_job_failed j;
      })
      → Saves F (mark_applied l b j)
  unfolding mark_applied is_condition_finalizer_job_applied flags holds
  mark_applied-Saves b j h =
      Saves-if F (not (is_condition_finalizer_job_applied l b)) _ _
        (λ e. (
          tt,
          λ now. mark_succeeded-Saves true _ j (λ d s. h d (
              Sets-trans
                (set_finalizer_job_applied-Sets l laws now b job_applied_reason job_applied_message)
                s (λ p. ground arith))),
        ))
        (λ e. mark_succeeded-Saves false b j (λ d s. h d (Sets-as s (ground arith))))

  pub unmark_failed-Saves :
      (need : Bool) (b : FluentPvcBinding)
      → MaySet b (record (flags l b) { finalizer_job_failed = false })
      → Saves F (unmark_failed l need b)
  unfolding unmark_failed is_condition_finalizer_job_failed flags holds
  unmark_failed-Saves need b h =
      Saves-if F (is_condition_finalizer_job_failed l b)
        (call time_now (λ now.
          save (set_condition_not_finalizer_job_failed l now b no_job_reason no_job_message)))
        (save_if need b)
        (λ e. (
          tt,
          λ now.
              save-Saves
                (set_condition_not_finalizer_job_failed l now b no_job_reason no_job_message)
                (h _ (set_not_finalizer_job_failed-Sets l laws now b no_job_reason no_job_message)),
        ))
        (λ e. save_if-Saves need b (h b (Sets-same l b (ground arith))))

  pub on_no_job-Saves :
      (b : FluentPvcBinding)
      → MaySet b
          (record (flags l b) { finalizer_job_applied = false; finalizer_job_failed = false })
      → Saves F (on_no_job l b)
  unfolding on_no_job is_condition_finalizer_job_applied flags holds
  on_no_job-Saves b h =
      Saves-if F (is_condition_finalizer_job_applied l b) _ _
        (λ e. (
          tt,
          λ now. unmark_failed-Saves true _ (λ d s. h d (
              Sets-trans
                (set_not_finalizer_job_applied-Sets l laws now b no_job_reason no_job_message) s
                (λ p. ground arith))),
        ))
        (λ e. unmark_failed-Saves false b (λ d s. h d (Sets-as s (ground arith))))

  pub on_many_jobs-Saves :
      (b : FluentPvcBinding)
      → MaySet b (record (flags l b) { unknown = true })
      → Saves F (on_many_jobs l b)
  unfolding on_many_jobs
  on_many_jobs-Saves b h =
      (tt, λ now. (h _ (set_unknown-Sets l laws now b many_jobs_reason many_jobs_message), λ r. tt))

  -- The helpers that set one condition and store the binding.
  pub unknown_pvc_lost-Saves :
      (b : FluentPvcBinding)
      → MaySet b (record (flags l b) { unknown = true })
      → Saves F (update_condition_unknown_pvc_lost l b)
  unfolding update_condition_unknown_pvc_lost
  unknown_pvc_lost-Saves b h = (tt, λ now. (h _ (set_unknown-Sets l laws now b _ _), λ r. tt))

  pub unknown_pod_and_pvc_not_found-Saves :
      (b : FluentPvcBinding)
      → MaySet b (record (flags l b) { unknown = true })
      → Saves F (update_condition_unknown_pod_and_pvc_not_found l b)
  unfolding update_condition_unknown_pod_and_pvc_not_found
  unknown_pod_and_pvc_not_found-Saves b h =
      (tt, λ now. (h _ (set_unknown-Sets l laws now b _ _), λ r. tt))

  pub unknown_pod_running_pvc_not_found-Saves :
      (b : FluentPvcBinding)
      → MaySet b (record (flags l b) { unknown = true })
      → Saves F (update_condition_unknown_pod_running_pvc_not_found l b)
  unfolding update_condition_unknown_pod_running_pvc_not_found
  unknown_pod_running_pvc_not_found-Saves b h =
      (tt, λ now. (h _ (set_unknown-Sets l laws now b _ _), λ r. tt))

  pub unknown_pod_completed_pvc_not_found-Saves :
      (b : FluentPvcBinding)
      → MaySet b (record (flags l b) { unknown = true })
      → Saves F (update_condition_unknown_pod_completed_pvc_not_found l b)
  unfolding update_condition_unknown_pod_completed_pvc_not_found
  unknown_pod_completed_pvc_not_found-Saves b h =
      (tt, λ now. (h _ (set_unknown-Sets l laws now b _ _), λ r. tt))

  pub pod_missing_binding_pod_timeout-Saves :
      (b : FluentPvcBinding)
      → MaySet b (record (flags l b) { pod_missing = true })
      → Saves F (update_condition_pod_missing_binding_pod_timeout l b)
  unfolding update_condition_pod_missing_binding_pod_timeout
  pod_missing_binding_pod_timeout-Saves b h =
      (tt, λ now. (h _ (set_pod_missing-Sets l laws now b _ _), λ r. tt))

  pub out_of_use_pod_deleted_pvc_found-Saves :
      (b : FluentPvcBinding)
      → MaySet b (record (flags l b) { out_of_use = true })
      → Saves F (update_condition_out_of_use_pod_deleted_pvc_found l b)
  unfolding update_condition_out_of_use_pod_deleted_pvc_found
  out_of_use_pod_deleted_pvc_found-Saves b h =
      (tt, λ now. (h _ (set_out_of_use-Sets l laws now b _ _), λ r. tt))

  pub out_of_use_pod_completed_pvc_found-Saves :
      (b : FluentPvcBinding)
      → MaySet b (record (flags l b) { out_of_use = true })
      → Saves F (update_condition_out_of_use_pod_completed_pvc_found l b)
  unfolding update_condition_out_of_use_pod_completed_pvc_found
  out_of_use_pod_completed_pvc_found-Saves b h =
      (tt, λ now. (h _ (set_out_of_use-Sets l laws now b _ _), λ r. tt))

  pub ready_pod_found_pvc_found-Saves :
      (b : FluentPvcBinding)
      → MaySet b (record (flags l b) { ready = true })
      → Saves F (update_condition_ready_pod_found_pvc_found l b)
  unfolding update_condition_ready_pod_found_pvc_found
  ready_pod_found_pvc_found-Saves b h =
      (tt, λ now. (h _ (set_ready-Sets l laws now b _ _), λ r. tt))

module _ (l : Library) (F : Rules) (deletes : F.deletion) where
  pub delete_stored-Saves : (b : FluentPvcBinding) → Saves F (delete_stored l b)
  unfolding delete_stored
  delete_stored-Saves b = (deletes, λ r. tt)

  pub on_unprotected-Saves :
      (b : FluentPvcBinding) (r : Reply FluentPvcBinding) → Saves F (on_unprotected l b r)
  unfolding on_unprotected
  on_unprotected-Saves b (success stored) = delete_stored-Saves stored
  on_unprotected-Saves b (failure e) =
      Saves-if F (l.is_not_found e) _ _ (λ h. delete_stored-Saves b) (λ h. tt)

  pub delete_fluent_pvc_binding-Saves :
      (b : FluentPvcBinding)
      → F.object (record b { meta = l.remove_finalizer b.meta fluent_pvc_binding_finalizer_name })
      → Saves F (delete_fluent_pvc_binding l b)
  unfolding delete_fluent_pvc_binding
  delete_fluent_pvc_binding-Saves b object =
      Saves-if F (l.contains_finalizer b.meta fluent_pvc_binding_finalizer_name) _ _
        (λ h. (object, on_unprotected-Saves _)) (λ h. delete_stored-Saves b)
