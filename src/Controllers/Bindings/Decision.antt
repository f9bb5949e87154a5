-- ===== src/Controllers/Bindings/Decision.antt =====
-- The part of `Reconcile` behind the search for the pod and the claim.
use fluent_pvc_operator.Prelude.{
  Bool, true, false, not, ◌&&◌, Option, none, some, is_some, if◌then◌else◌, ◌*◌,
}
use fluent_pvc_operator.Kube.{
  Library, Pod, PodPhase, pod_pending, pod_running, pod_succeeded, pod_failed, pod_unknown,
  pod_unset, PersistentVolumeClaim, ClaimPhase, claim_lost, Outcome, ok,
}
use fluent_pvc_operator.Api.{
  FluentPvcBinding, pvc_finalizer_name, is_condition_ready, is_condition_out_of_use,
  is_condition_pod_missing, is_condition_finalizer_job_succeeded,
}
use fluent_pvc_operator.Effect.{Program, ret, call, time_now}
use fluent_pvc_operator.Controllers.Bindings.Updates.{
  delete_fluent_pvc_binding, update_condition_unknown_pvc_lost,
  update_condition_pod_missing_binding_pod_timeout, update_condition_unknown_pod_and_pvc_not_found,
  update_condition_unknown_pod_running_pvc_not_found,
  update_condition_unknown_pod_completed_pvc_not_found,
  update_condition_out_of_use_pod_deleted_pvc_found,
  update_condition_out_of_use_pod_completed_pvc_found, update_condition_ready_pod_found_pvc_found,
}
use fluent_pvc_operator.Controllers.Bindings.Jobs.{update_condition_by_finalizer_job_status}
use fluent_pvc_operator.Controllers.Utils.{Result, no_requeue, hour, is_created_before}

abbrev pub is_claim_lost : ClaimPhase → Bool
is_claim_lost claim_lost = true
is_claim_lost _ = false

abbrev pub is_lost : Option PersistentVolumeClaim → Bool
is_lost none = false
is_lost (some pvc) = is_claim_lost pvc.phase

module _ (l : Library) where
  abbrev pub is_protected : Option PersistentVolumeClaim → Bool
  is_protected none = false
  is_protected (some pvc) = l.contains_finalizer pvc.meta pvc_finalizer_name

  -- `case podFound && !pvcFound`
  unfoldable pub on_pod_without_claim : FluentPvcBinding → PodPhase → Program (Outcome Result)
  unfolding update_condition_unknown_pod_running_pvc_not_found
      update_condition_unknown_pod_completed_pvc_not_found
  on_pod_without_claim b pod_running = update_condition_unknown_pod_running_pvc_not_found l b
  on_pod_without_claim b pod_succeeded = update_condition_unknown_pod_completed_pvc_not_found l b
  on_pod_without_claim b pod_failed = update_condition_unknown_pod_completed_pvc_not_found l b
  on_pod_without_claim b pod_pending = ret (ok no_requeue)
  on_pod_without_claim b pod_unknown = ret (ok no_requeue)
  on_pod_without_claim b pod_unset = ret (ok no_requeue)

  -- the pod has completed
  unfoldable pub on_completed : FluentPvcBinding → Program (Outcome Result)
  unfolding is_condition_out_of_use update_condition_out_of_use_pod_completed_pvc_found
      update_condition_by_finalizer_job_status
  on_completed b =
      if not (is_condition_out_of_use l b)
      then update_condition_out_of_use_pod_completed_pvc_found l b
      else update_condition_by_finalizer_job_status l b

  -- `case podFound && pvcFound`, once the binding is ready
  unfoldable pub on_pod_and_claim : FluentPvcBinding → PodPhase → Program (Outcome Result)
  unfolding on_completed
  on_pod_and_claim b pod_succeeded = on_completed b
  on_pod_and_claim b pod_failed = on_completed b
  on_pod_and_claim b pod_pending = ret (ok no_requeue)
  on_pod_and_claim b pod_running = ret (ok no_requeue)
  on_pod_and_claim b pod_unknown = ret (ok no_requeue)
  on_pod_and_claim b pod_unset = ret (ok no_requeue)

  -- the `switch` at the end
  unfoldable pub on_found :
      FluentPvcBinding → Option Pod → Option PersistentVolumeClaim → Program (Outcome Result)
  unfolding on_pod_without_claim on_pod_and_claim is_condition_out_of_use is_condition_ready
      update_condition_unknown_pod_and_pvc_not_found
      update_condition_out_of_use_pod_deleted_pvc_found update_condition_by_finalizer_job_status
      update_condition_ready_pod_found_pvc_found
  on_found b none none = update_condition_unknown_pod_and_pvc_not_found l b
  on_found b none (some pvc) =
      if not (is_condition_out_of_use l b)
      then update_condition_out_of_use_pod_deleted_pvc_found l b
      else update_condition_by_finalizer_job_status l b
  on_found b (some pod) none = on_pod_without_claim b pod.phase
  on_found b (some pod) (some pvc) =
      if not (is_condition_ready l b)
      then update_condition_ready_pod_found_pvc_found l b
      else on_pod_and_claim b pod.phase

  -- no pod, and the binding was never ready
  unfoldable pub on_unborn : FluentPvcBinding → Program (Outcome Result)
  unfolding is_created_before update_condition_pod_missing_binding_pod_timeout
  on_unborn b = call time_now (λ now.
      if is_created_before now b.meta (1 * hour)
      then update_condition_pod_missing_binding_pod_timeout l b
      else ret (ok no_requeue))

  unfoldable pub decide :
      FluentPvcBinding → Option Pod → Option PersistentVolumeClaim → Program (Outcome Result)
  unfolding on_unborn on_found is_condition_pod_missing is_condition_finalizer_job_succeeded
      is_condition_ready delete_fluent_pvc_binding update_condition_unknown_pvc_lost
  decide b pod pvc =
      if not (is_some pvc) && is_condition_pod_missing l b
      then delete_fluent_pvc_binding l b
      else if is_lost pvc
      then update_condition_unknown_pvc_lost l b
      else if is_condition_finalizer_job_succeeded l b
      then (if is_protected pvc then ret (ok no_requeue) else delete_fluent_pvc_binding l b)
      else if not (is_some pod) && not (is_condition_ready l b)
      then on_unborn b
      else on_found b pod pvc
