-- ===== src/Failures/Bindings.antt =====
-- The errors of the server in a run of controllers/fluentpvcbinding_controller.go.
use fluent_pvc_operator.Failures.{Halts, Halts-if}
use fluent_pvc_operator.Controllers.Utils.{is_created_before, hour}
use fluent_pvc_operator.Failures.Writes.{by_job-Halts, delete-Halts, saving_now}
use fluent_pvc_operator.Controllers.Bindings.{
  save, on_pod_without_claim, is_lost, on_completed, on_pod_and_claim, on_found, on_unborn, decide,
  is_protected, update_condition_out_of_use_pod_completed_pvc_found,
  update_condition_ready_pod_found_pvc_found, update_condition_out_of_use_pod_deleted_pvc_found,
  update_condition_unknown_pod_and_pvc_not_found, update_condition_pod_missing_binding_pod_timeout,
  update_condition_unknown_pvc_lost, update_condition_unknown_pod_running_pvc_not_found,
  update_condition_unknown_pod_completed_pvc_not_found,
}
use fluent_pvc_operator.Prelude.{not, ◌&&◌, ◌*◌, is_some, Option, some, none}
use fluent_pvc_operator.Kube.{
  Library, Pod, PersistentVolumeClaim, PodPhase, pod_running, pod_succeeded, pod_failed,
  pod_pending, pod_unknown, pod_unset,
}
use fluent_pvc_operator.Api.{
  FluentPvcBinding, is_condition_out_of_use, is_condition_ready, is_condition_pod_missing,
  is_condition_finalizer_job_succeeded,
}

module _ (l : Library) where
  on_pod_without_claim-Halts :
      (b : FluentPvcBinding) (p : PodPhase) → Halts l (on_pod_without_claim l b p)
  unfolding on_pod_without_claim save update_condition_unknown_pod_running_pvc_not_found
      update_condition_unknown_pod_completed_pvc_not_found
  on_pod_without_claim-Halts b pod_running = saving_now l
  on_pod_without_claim-Halts b pod_succeeded = saving_now l
  on_pod_without_claim-Halts b pod_failed = saving_now l
  on_pod_without_claim-Halts b pod_pending = tt
  on_pod_without_claim-Halts b pod_unknown = tt
  on_pod_without_claim-Halts b pod_unset = tt

  on_completed-Halts : (b : FluentPvcBinding) → Halts l (on_completed l b)
  unfolding on_completed save update_condition_out_of_use_pod_completed_pvc_found
  on_completed-Halts b =
      Halts-if l (not (is_condition_out_of_use l b)) _ _ (saving_now l) (by_job-Halts l b)

  on_pod_and_claim-Halts : (b : FluentPvcBinding) (p : PodPhase) → Halts l (on_pod_and_claim l b p)
  unfolding on_pod_and_claim
  on_pod_and_claim-Halts b pod_succeeded = on_completed-Halts b
  on_pod_and_claim-Halts b pod_failed = on_completed-Halts b
  on_pod_and_claim-Halts b pod_pending = tt
  on_pod_and_claim-Halts b pod_running = tt
  on_pod_and_claim-Halts b pod_unknown = tt
  on_pod_and_claim-Halts b pod_unset = tt

  on_found-Halts :
      (b : FluentPvcBinding) (pod : Option Pod) (pvc : Option PersistentVolumeClaim)
      → Halts l (on_found l b pod pvc)
  unfolding on_found save update_condition_unknown_pod_and_pvc_not_found
      update_condition_out_of_use_pod_deleted_pvc_found update_condition_ready_pod_found_pvc_found
  on_found-Halts b none none = saving_now l
  on_found-Halts b none (some pvc) =
      Halts-if l (not (is_condition_out_of_use l b)) _ _ (saving_now l) (by_job-Halts l b)
  on_found-Halts b (some pod) none = on_pod_without_claim-Halts b pod.phase
  on_found-Halts b (some pod) (some pvc) =
      Halts-if l (not (is_condition_ready l b)) _ _ (saving_now l)
        (on_pod_and_claim-Halts b pod.phase)

  on_unborn-Halts : (b : FluentPvcBinding) → Halts l (on_unborn l b)
  unfolding on_unborn save update_condition_pod_missing_binding_pod_timeout
  on_unborn-Halts b = λ now.
      (λ x. absurd x, Halts-if l (is_created_before now b.meta (1 * hour)) _ _ (saving_now l) tt)

  pub decide-Halts :
      (b : FluentPvcBinding) (pod : Option Pod) (pvc : Option PersistentVolumeClaim)
      → Halts l (decide l b pod pvc)
  unfolding decide save update_condition_unknown_pvc_lost
  decide-Halts b pod pvc =
      Halts-if l (not (is_some pvc) && is_condition_pod_missing l b) _ _ (delete-Halts l b) (
        Halts-if l (is_lost pvc) _ _ (saving_now l) (
          Halts-if l (is_condition_finalizer_job_succeeded l b) _ _
            (Halts-if l (is_protected l pvc) _ _ tt (delete-Halts l b))
            (Halts-if l (not (is_some pod) && not (is_condition_ready l b)) _ _ (on_unborn-Halts b)
              (on_found-Halts b pod pvc))))
