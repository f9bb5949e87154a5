-- ===== src/Controllers/Bindings/Jobs.antt =====
-- `updateConditionByFinalizerJobStatus`. Each setter reads the clock; `need` is `needUpdate`.
use fluent_pvc_operator.Prelude.{Bool, true, false, not, List, [], ◌∷◌, if◌then◌else◌, String}
use fluent_pvc_operator.Kube.{
  Library, Job, Reply, success, failure, api, wrap, new, Outcome, ok, err,
}
use fluent_pvc_operator.Api.{
  FluentPvcBinding, is_condition_finalizer_job_applied, is_condition_finalizer_job_failed,
  set_condition_not_finalizer_job_applied, set_condition_not_finalizer_job_failed,
  set_condition_unknown, set_condition_finalizer_job_applied, set_condition_finalizer_job_succeeded,
  set_condition_finalizer_job_failed,
}
use fluent_pvc_operator.Effect.{Program, ret, call, time_now, update_binding_status, list_jobs}
use fluent_pvc_operator.Controllers.Utils.{
  Result, no_requeue, unexpected, is_job_succeeded, is_job_failed,
}
use fluent_pvc_operator.Controllers.Bindings.Updates.{save, unexpected_twice}

-- The reasons and messages of the conditions.
abbrev pub job_failed_reason : String
job_failed_reason = "FinalizerJobFailed"

abbrev pub job_failed_message : String
job_failed_message =
    "Update the status fluentpvcbinding='%s' 'FinalizerJobFailed' because the finalizer job='%s' is failed."

abbrev pub job_succeeded_reason : String
job_succeeded_reason = "FinalizerJobSucceeded"

abbrev pub job_succeeded_message : String
job_succeeded_message =
    "Update the status fluentpvcbinding='%s' 'FinalizerJobSucceeded' because the finalizer job='%s' is succeeded"

abbrev pub job_applied_reason : String
job_applied_reason = "FinalizerJobFound"

abbrev pub job_applied_message : String
job_applied_message =
    "Update the status fluentpvcbinding='%s' 'FinalizerJobApplied' because some finalizer jobs are already applied: %+v"

abbrev pub no_job_reason : String
no_job_reason = "FinalizerJobNotFound"

abbrev pub no_job_message : String
no_job_message = "Finalizer jobs for fluentpvcbinding='%s' is not found."

abbrev pub many_jobs_reason : String
many_jobs_reason = "MultipleFinalizerJobsFound"

abbrev pub many_jobs_message : String
many_jobs_message = "Found an illegal state that multiple finalizer jobs [%s] are found."

unfoldable pub save_if : Bool → FluentPvcBinding → Program (Outcome Result)
unfolding save
save_if true b = save b
save_if false b = ret (ok no_requeue)

-- The status is stored, and an error is returned all the same.
abbrev pub reported : Reply FluentPvcBinding → Outcome Result
reported (success _) = err (wrap unexpected (new many_jobs_message))
reported (failure e) = err (unexpected_twice (api e))

module _ (l : Library) where
  unfoldable pub unmark_failed : Bool → FluentPvcBinding → Program (Outcome Result)
  unfolding save_if save is_condition_finalizer_job_failed set_condition_not_finalizer_job_failed
  unmark_failed need b =
      if is_condition_finalizer_job_failed l b
      then call time_now (λ now.
        save (set_condition_not_finalizer_job_failed l now b no_job_reason no_job_message))
      else save_if need b

  unfoldable pub on_no_job : FluentPvcBinding → Program (Outcome Result)
  unfolding unmark_failed is_condition_finalizer_job_applied set_condition_not_finalizer_job_applied
  on_no_job b =
      if is_condition_finalizer_job_applied l b
      then call time_now (λ now.
        unmark_failed true
          (set_condition_not_finalizer_job_applied l now b no_job_reason no_job_message))
      else unmark_failed false b

  unfoldable pub on_many_jobs : FluentPvcBinding → Program (Outcome Result)
  unfolding set_condition_unknown
  on_many_jobs b = call time_now (λ now.
      call
        (update_binding_status (set_condition_unknown l now b many_jobs_reason many_jobs_message))
        (λ r. ret (reported r)))

  unfoldable pub mark_failed : Bool → FluentPvcBinding → Job → Program (Outcome Result)
  unfolding save_if save set_condition_finalizer_job_failed
  mark_failed need b j =
      if is_job_failed j
      then call time_now (λ now.
        save (set_condition_finalizer_job_failed l now b job_failed_reason job_failed_message))
      else save_if need b

  unfoldable pub mark_succeeded : Bool → FluentPvcBinding → Job → Program (Outcome Result)
  unfolding mark_failed set_condition_finalizer_job_succeeded
  mark_succeeded need b j =
      if is_job_succeeded j
      then call time_now (λ now.
        mark_failed true
          (set_condition_finalizer_job_succeeded l now b job_succeeded_reason job_succeeded_message)
          j)
      else mark_failed need b j

  unfoldable pub mark_applied : FluentPvcBinding → Job → Program (Outcome Result)
  unfolding mark_succeeded is_condition_finalizer_job_applied set_condition_finalizer_job_applied
  mark_applied b j =
      if not (is_condition_finalizer_job_applied l b)
      then call time_now (λ now.
        mark_succeeded true
          (set_condition_finalizer_job_applied l now b job_applied_reason job_applied_message) j)
      else mark_succeeded false b j

  unfoldable pub on_jobs : FluentPvcBinding → Reply (List Job) → Program (Outcome Result)
  unfolding on_no_job on_many_jobs mark_applied
  on_jobs b (failure e) =
      if l.is_not_found e then on_no_job b else ret (err (unexpected_twice (api e)))
  on_jobs b (success []) = on_no_job b
  on_jobs b (success (j ∷ [])) = mark_applied b j
  on_jobs b (success (j ∷ j' ∷ js)) = on_many_jobs b

  unfoldable pub update_condition_by_finalizer_job_status :
      FluentPvcBinding → Program (Outcome Result)
  unfolding on_jobs
  update_condition_by_finalizer_job_status b = call (list_jobs b.meta.name) (on_jobs b)
