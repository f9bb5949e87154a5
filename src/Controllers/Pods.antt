-- ===== src/Controllers/Pods.antt =====
-- controllers/pod_controller.go
pub mod Deletion
use fluent_pvc_operator.Prelude.{
  String, not, ◌&&◌, Option, none, some, nat_eq, is_some, if◌then◌else◌,
}
use fluent_pvc_operator.Kube.{
  Library, ObjectKey, StringMap, Pod, ContainerStatus, Reply, success, failure, api, wrap, new,
  Outcome, ok, err, lookup_key,
}
use fluent_pvc_operator.Api.{FluentPvc, pod_label_fluent_pvc_name}
use fluent_pvc_operator.Effect.{Program, ret, call, get_pod, get_fluent_pvc, delete_pod}
use fluent_pvc_operator.Controllers.Utils.{
  unexpected, finish_delete, Result, no_requeue, delete_options_background, is_pod_running_phase,
  find_container_status_by_name,
}

-- `pod.Labels[key]`, where a nil map has no key
unfoldable pub label : Option StringMap → String → Option String
label none key = none
label (some m) key = lookup_key key m

module _ (l : Library) where
  unfoldable pub on_status : Pod → String → Option ContainerStatus → Program (Outcome Result)
  unfolding delete_options_background
  on_status pod name none = ret (err (new "Container='%s' does not have any status."))
  on_status pod name (some status) =
      if nat_eq status.restart_count 0 && not (is_some status.terminated)
      then ret (ok no_requeue)
      else call (delete_pod pod (delete_options_background pod.meta.uid pod.meta.resource_version))
          (λ r. ret (finish_delete l r))

  unfoldable pub on_fluent_pvc : Pod → Reply FluentPvc → Program (Outcome Result)
  unfolding on_status find_container_status_by_name
  on_fluent_pvc pod (failure e) = ret (err (wrap unexpected (api e)))
  on_fluent_pvc pod (success fpvc) =
      if not fpvc.spec.delete_pod_if_sidecar_container_termination_detected
      then ret (ok no_requeue)
      else let name = fpvc.spec.sidecar_container_template.name in
        on_status pod name (find_container_status_by_name pod.container_statuses name)

  unfoldable pub on_label : Pod → Option String → Program (Outcome Result)
  unfolding on_fluent_pvc is_pod_running_phase
  on_label pod none = ret (ok no_requeue)
  on_label pod (some name) =
      if not (is_pod_running_phase pod)
      then ret (ok no_requeue)
      else call (get_fluent_pvc name) (on_fluent_pvc pod)

  unfoldable pub on_pod : Reply Pod → Program (Outcome Result)
  unfolding on_label label
  on_pod (failure e) =
      ret (if l.is_not_found e then ok no_requeue else err (wrap unexpected (api e)))
  on_pod (success pod) = on_label pod (label pod.meta.labels pod_label_fluent_pvc_name)

  unfoldable pub reconcile : ObjectKey → Program (Outcome Result)
  unfolding on_pod
  reconcile req = call (get_pod req) on_pod
