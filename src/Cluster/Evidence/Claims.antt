-- ===== src/Cluster/Evidence/Claims.antt =====
-- A run of the claim reconciler stores no status, controllers/pvc_controller.go.
use fluent_pvc_operator.Cluster.Evidence.{StoresNone, StoresNone-if}
use fluent_pvc_operator.Controllers.Utils.{Result, no_requeue}
use fluent_pvc_operator.Controllers.Claims.{
  on_pvc, on_binding, reconcile, delete_claim, on_update, release, when_applied, on_applied,
  when_out_of_use, on_fluent_pvc, apply_job, on_jobs, later,
}
use fluent_pvc_operator.Prelude.{not, ◌&&◌, Option, none, some, List, [], ◌∷◌, ◌==◌}
use fluent_pvc_operator.Kube.{
  Library, Reply, success, failure, Outcome, PersistentVolumeClaim, ObjectKey, ok, err,
  OwnerReference, Job, panicked,
}
use fluent_pvc_operator.Api.{
  FluentPvcBinding, FluentPvc, is_condition_unknown, is_condition_out_of_use,
  is_condition_pod_missing, is_condition_finalizer_job_applied,
  is_condition_finalizer_job_succeeded, is_condition_finalizer_job_failed,
}

module _ (l : Library) where
  on_update-StoresNone :
      (on_conflict : Result) (p : PersistentVolumeClaim) (r : Reply PersistentVolumeClaim)
      → StoresNone (on_update l on_conflict p r)
  unfolding on_update delete_claim
  on_update-StoresNone oc p (success stored) = (tt, λ r. tt)
  on_update-StoresNone oc p (failure x) =
      StoresNone-if (l.is_not_found x) _ _ (tt, λ r. tt) (StoresNone-if (l.is_conflict x) _ _ tt tt)

  module _ (pvc : PersistentVolumeClaim) where
    release-StoresNone : (on_conflict : Result) → StoresNone (release l on_conflict pvc)
    unfolding release
    release-StoresNone oc = (tt, λ r. on_update-StoresNone oc _ r)

    module _ (b : FluentPvcBinding) where
      when_applied-StoresNone : StoresNone (when_applied l pvc b)
      unfolding when_applied
      when_applied-StoresNone =
          StoresNone-if
            (not (is_condition_finalizer_job_succeeded l b)
              && not (is_condition_finalizer_job_failed l b))
            _ _ tt
            (StoresNone-if (is_condition_finalizer_job_failed l b) _ _ tt
              (release-StoresNone later))

      on_applied-StoresNone : (o : Outcome (Unit {0})) → StoresNone (on_applied l pvc b o)
      unfolding on_applied
      on_applied-StoresNone (ok _) = when_applied-StoresNone
      on_applied-StoresNone (err e) = tt
      on_applied-StoresNone panicked = tt

      on_fluent_pvc-StoresNone : (r : Reply FluentPvc) → StoresNone (on_fluent_pvc l pvc b r)
      unfolding on_fluent_pvc
      on_fluent_pvc-StoresNone (failure e) = tt
      on_fluent_pvc-StoresNone (success fpvc) = (tt, λ o. on_applied-StoresNone o)

      apply_job-StoresNone : (o : Option OwnerReference) → StoresNone (apply_job l pvc b o)
      unfolding apply_job
      apply_job-StoresNone none = tt
      apply_job-StoresNone (some owner) = (tt, λ r. on_fluent_pvc-StoresNone r)

      on_jobs-StoresNone : (r : Reply (List Job)) → StoresNone (on_jobs l pvc b r)
      unfolding on_jobs
      on_jobs-StoresNone (success []) = apply_job-StoresNone _
      on_jobs-StoresNone (success (j ∷ js)) = tt
      on_jobs-StoresNone (failure e) =
          StoresNone-if (l.is_not_found e) _ _ (apply_job-StoresNone _) tt

      when_out_of_use-StoresNone : StoresNone (when_out_of_use l pvc b)
      unfolding when_out_of_use
      when_out_of_use-StoresNone =
          StoresNone-if (not (is_condition_finalizer_job_applied l b)) _ _
            (tt, λ r. on_jobs-StoresNone r) when_applied-StoresNone

    on_binding-StoresNone : (r : Reply FluentPvcBinding) → StoresNone (on_binding l pvc r)
    unfolding on_binding
    on_binding-StoresNone (failure e) = tt
    on_binding-StoresNone (success b) =
        StoresNone-if (not (pvc.meta.uid == b.spec.pvc.uid)) _ _ tt (
          StoresNone-if (is_condition_pod_missing l b) _ _ (release-StoresNone no_requeue) (
            StoresNone-if (is_condition_unknown l b) _ _ tt (
              StoresNone-if (not (is_condition_out_of_use l b)) _ _ tt
                (when_out_of_use-StoresNone b))))

  on_pvc-StoresNone :
      (req : ObjectKey) (r : Reply PersistentVolumeClaim) → StoresNone (on_pvc l req r)
  unfolding on_pvc
  on_pvc-StoresNone req (failure e) = tt
  on_pvc-StoresNone req (success pvc) = (tt, λ r. on_binding-StoresNone pvc r)

  pub reconcile-StoresNone : (req : ObjectKey) → StoresNone (reconcile l req)
  unfolding reconcile
  reconcile-StoresNone req = (tt, λ r. on_pvc-StoresNone req r)
