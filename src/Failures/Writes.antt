-- ===== src/Failures/Writes.antt =====
-- The errors of the server where the binding reconciler writes,
-- controllers/fluentpvcbinding_controller.go.
use fluent_pvc_operator.Failures.{Answered, Halts, Halts-if, answered, Answered-last}
use fluent_pvc_operator.Controllers.Utils.{is_job_succeeded, is_job_failed}
use fluent_pvc_operator.Controllers.Bindings.{
  save, saved, save_if, unmark_failed, on_no_job, on_many_jobs, mark_failed, mark_succeeded,
  mark_applied, on_jobs, update_condition_by_finalizer_job_status, reported, job_applied_reason,
  job_applied_message, job_succeeded_reason, job_succeeded_message, no_job_reason, no_job_message,
  delete_stored, deleted, on_unprotected, delete_fluent_pvc_binding,
}
use fluent_pvc_operator.Effect.{ret}
use fluent_pvc_operator.Prelude.{ℕ, Bool, true, false, not, List, [], ◌∷◌}
use fluent_pvc_operator.Kube.{Library, success, Job}
use fluent_pvc_operator.Api.{
  FluentPvcBinding, is_condition_finalizer_job_applied, is_condition_finalizer_job_failed,
  set_condition_finalizer_job_applied, set_condition_finalizer_job_succeeded,
  set_condition_not_finalizer_job_applied, fluent_pvc_binding_finalizer_name,
}

module _ (l : Library) where
  saving : Answered l {A = FluentPvcBinding} (λ r. ret (saved r))
  saving = Answered-last l saved (λ e h. tt)

  -- after the clock is read
  pub saving_now : (now : ℕ) → (⊥ → ⊥) × Answered l {A = FluentPvcBinding} (λ r. ret (saved r))
  saving_now now = (λ x. x, saving)

  save_if-Halts : (need : Bool) (b : FluentPvcBinding) → Halts l (save_if need b)
  unfolding save_if save
  save_if-Halts true b = saving
  save_if-Halts false b = tt

  unmark_failed-Halts : (need : Bool) (b : FluentPvcBinding) → Halts l (unmark_failed l need b)
  unfolding unmark_failed save
  unmark_failed-Halts need b =
      Halts-if l (is_condition_finalizer_job_failed l b) _ _ saving_now (save_if-Halts need b)

  on_no_job-Halts : (b : FluentPvcBinding) → Halts l (on_no_job l b)
  unfolding on_no_job
  on_no_job-Halts b =
      Halts-if l (is_condition_finalizer_job_applied l b) _ _
        (λ now. (
          λ x. absurd x,
          unmark_failed-Halts true
              (set_condition_not_finalizer_job_applied l now b no_job_reason no_job_message),
        ))
        (unmark_failed-Halts false b)

  mark_failed-Halts :
      (need : Bool) (b : FluentPvcBinding) (j : Job) → Halts l (mark_failed l need b j)
  unfolding mark_failed save
  mark_failed-Halts need b j = Halts-if l (is_job_failed j) _ _ saving_now (save_if-Halts need b)

  mark_succeeded-Halts :
      (need : Bool) (b : FluentPvcBinding) (j : Job) → Halts l (mark_succeeded l need b j)
  unfolding mark_succeeded
  mark_succeeded-Halts need b j =
      Halts-if l (is_job_succeeded j) _ _
        (λ now. (
          λ x. absurd x,
          mark_failed-Halts true
              (set_condition_finalizer_job_succeeded l now b job_succeeded_reason
                job_succeeded_message)
              j,
        ))
        (mark_failed-Halts need b j)

  mark_applied-Halts : (b : FluentPvcBinding) (j : Job) → Halts l (mark_applied l b j)
  unfolding mark_applied
  mark_applied-Halts b j =
      Halts-if l (not (is_condition_finalizer_job_applied l b)) _ _
        (λ now. (
          λ x. absurd x,
          mark_succeeded-Halts true
              (set_condition_finalizer_job_applied l now b job_applied_reason job_applied_message)
              j,
        ))
        (mark_succeeded-Halts false b j)

  on_jobs-Halts : (b : FluentPvcBinding) (js : List Job) → Halts l (on_jobs l b (success js))
  unfolding on_jobs on_many_jobs
  on_jobs-Halts b [] = on_no_job-Halts b
  on_jobs-Halts b (j ∷ []) = mark_applied-Halts b j
  on_jobs-Halts b (j ∷ j' ∷ js) =
      λ now. (λ x. absurd x, Answered-last l {A = FluentPvcBinding} reported (λ e h. tt))

  pub by_job-Halts : (b : FluentPvcBinding) → Halts l (update_condition_by_finalizer_job_status l b)
  unfolding update_condition_by_finalizer_job_status on_jobs
  by_job-Halts b =
      answered l (on_jobs l b) (on_jobs-Halts b)
        (λ e. Halts-if l (l.is_not_found e) _ _ (on_no_job-Halts b) tt) (λ e h. rw h.0 tt)

  deletion-Halts : (b : FluentPvcBinding) → Halts l (delete_stored l b)
  unfolding delete_stored
  deletion-Halts b = Answered-last l (deleted l) (λ e h. rw h.0 tt)

  pub delete-Halts : (b : FluentPvcBinding) → Halts l (delete_fluent_pvc_binding l b)
  unfolding delete_fluent_pvc_binding on_unprotected
  delete-Halts b =
      let b' = record b { meta = l.remove_finalizer b.meta fluent_pvc_binding_finalizer_name } in
      Halts-if l (l.contains_finalizer b.meta fluent_pvc_binding_finalizer_name) _ _
        (answered l (on_unprotected l b') (λ stored. deletion-Halts stored)
          (λ e. Halts-if l (l.is_not_found e) _ _ (deletion-Halts b') tt) (λ e h. rw h.0 tt))
        (deletion-Halts b)
