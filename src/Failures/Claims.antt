-- ===== src/Failures/Claims.antt =====
-- The errors of the server in a run of controllers/pvc_controller.go.
use fluent_pvc_operator.Failures.{Halts, Halts-if, answered, Answered-last, Fails, IsError}
use fluent_pvc_operator.Controllers.Utils.{Result, no_requeue, finish_delete}
use fluent_pvc_operator.Controllers.Claims.{
  on_pvc, on_binding, reconcile, delete_claim, on_update, release, when_applied, on_applied,
  when_out_of_use, on_fluent_pvc, apply_job, on_jobs, later,
}
use fluent_pvc_operator.Controllers.Claims.Release.{unprotected}
use fluent_pvc_operator.Prelude.{not, ◌&&◌, Option, none, some, List, [], ◌∷◌, ◌==◌}
use fluent_pvc_operator.Kube.{
  Library, success, Outcome, PersistentVolumeClaim, ObjectKey, ok, err, OwnerReference, Job,
  panicked,
}
use fluent_pvc_operator.Api.{
  FluentPvcBinding, is_condition_unknown, is_condition_out_of_use, is_condition_pod_missing,
  is_condition_finalizer_job_applied, is_condition_finalizer_job_succeeded,
  is_condition_finalizer_job_failed,
}

module _ (l : Library) where
  delete_claim-Halts : (p : PersistentVolumeClaim) → Halts l (delete_claim l p)
  unfolding delete_claim
  delete_claim-Halts p = Answered-last l (finish_delete l) (λ e h. rw h.0 tt)

  module _ (pvc : PersistentVolumeClaim) where
    release-Halts : (on_conflict : Result) → Halts l (release l on_conflict pvc)
    unfolding release on_update
    release-Halts oc =
        answered l (on_update l oc (unprotected l pvc)) (λ stored. delete_claim-Halts stored)
          (λ e.
            Halts-if l (l.is_not_found e) _ _ (delete_claim-Halts (unprotected l pvc))
              (Halts-if l (l.is_conflict e) _ _ tt tt))
          (λ e h. rw h.0 (rw h.1 tt))

    module _ (b : FluentPvcBinding) where
      when_applied-Halts : Halts l (when_applied l pvc b)
      unfolding when_applied
      when_applied-Halts =
          Halts-if l
            (not (is_condition_finalizer_job_succeeded l b)
              && not (is_condition_finalizer_job_failed l b))
            _ _ tt (Halts-if l (is_condition_finalizer_job_failed l b) _ _ tt (release-Halts later))

      on_applied-Halts :
          (o : Outcome (Unit {0}))
          → (IsError l o → Fails (on_applied l pvc b o)) × Halts l (on_applied l pvc b o)
      unfolding on_applied
      on_applied-Halts (ok _) = (λ x. absurd x, when_applied-Halts)
      on_applied-Halts (err e) = (λ x. tt, tt)
      on_applied-Halts panicked = (λ x. absurd x, tt)

      apply_job-Halts : (o : Option OwnerReference) → Halts l (apply_job l pvc b o)
      unfolding apply_job on_fluent_pvc
      apply_job-Halts none = tt
      apply_job-Halts (some owner) =
          answered l (on_fluent_pvc l pvc b) (λ fpvc o. on_applied-Halts o) (λ e. tt) (λ e h. tt)

      on_jobs-Halts : (js : List Job) → Halts l (on_jobs l pvc b (success js))
      unfolding on_jobs
      on_jobs-Halts [] = apply_job-Halts _
      on_jobs-Halts (j ∷ js) = tt

      when_out_of_use-Halts : Halts l (when_out_of_use l pvc b)
      unfolding when_out_of_use on_jobs
      when_out_of_use-Halts =
          Halts-if l (not (is_condition_finalizer_job_applied l b)) _ _
            (answered l (on_jobs l pvc b) on_jobs-Halts
              (λ e. Halts-if l (l.is_not_found e) _ _ (apply_job-Halts _) tt) (λ e h. rw h.0 tt))
            when_applied-Halts

      on_binding-Halts : Halts l (on_binding l pvc (success b))
      unfolding on_binding
      on_binding-Halts = Halts-if l (not (pvc.meta.uid == b.spec.pvc.uid)) _ _ tt (
          Halts-if l (is_condition_pod_missing l b) _ _ (release-Halts no_requeue) (
            Halts-if l (is_condition_unknown l b) _ _ tt
              (Halts-if l (not (is_condition_out_of_use l b)) _ _ tt when_out_of_use-Halts)))

  pub reconcile_pvc-Halts : (req : ObjectKey) → Halts l (reconcile l req)
  unfolding reconcile on_pvc on_binding
  reconcile_pvc-Halts req =
      answered l (on_pvc l req)
        (λ pvc.
          answered l (on_binding l pvc) (λ b. on_binding-Halts pvc b) (λ e. tt) (λ e h. rw h.0 tt))
        (λ e. tt) (λ e h. rw h.0 tt)
