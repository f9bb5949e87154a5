-- ===== src/Failures/Others.antt =====
-- The errors of the server in the runs of controllers/fluentpvc_controller.go and
-- controllers/pod_controller.go.
use fluent_pvc_operator.Failures.{Halts, Halts-if, answered, Answered-last}
use fluent_pvc_operator.Controllers.FluentPvcs
use fluent_pvc_operator.Controllers.Pods
use fluent_pvc_operator.Controllers.Pods.{on_status, label}
use fluent_pvc_operator.Controllers.Utils.{
  finish_delete, is_pod_running_phase, find_container_status_by_name,
}
use fluent_pvc_operator.Api.{FluentPvc, FluentPvcBinding, pod_label_fluent_pvc_name}
use fluent_pvc_operator.Kube.{Library, ObjectKey, Pod, ContainerStatus, Reply, success, failure}
use fluent_pvc_operator.Prelude.{Option, some, none, String, List, not, ◌&&◌, nat_eq, is_some}

module _ (l : Library) where
  on_bindings-Halts :
      (fpvc : FluentPvc) (r : Reply (List FluentPvcBinding))
      → Halts l (FluentPvcs.on_bindings l fpvc r)
  unfolding FluentPvcs.on_bindings
  on_bindings-Halts fpvc (success bs) = Answered-last l (FluentPvcs.finish_update l) (λ e h. tt)
  on_bindings-Halts fpvc (failure e) =
      Halts-if l (l.is_not_found e) _ _ (Answered-last l (FluentPvcs.finish_update l) (λ e h. tt))
        tt

  pub reconcile_fluent_pvc-Halts : (req : ObjectKey) → Halts l (FluentPvcs.reconcile l req)
  unfolding FluentPvcs.reconcile FluentPvcs.on_fluent_pvc FluentPvcs.on_bindings
  reconcile_fluent_pvc-Halts req =
      answered l (FluentPvcs.on_fluent_pvc l)
        (λ fpvc.
          answered l (FluentPvcs.on_bindings l fpvc) (λ bs. on_bindings-Halts fpvc (success bs))
            (λ e. on_bindings-Halts fpvc (failure e)) (λ e h. rw h.0 tt))
        (λ e. tt) (λ e h. rw h.0 tt)

  on_status-Halts :
      (pod : Pod) (name : String) (o : Option ContainerStatus) → Halts l (on_status l pod name o)
  unfolding on_status
  on_status-Halts pod name none = tt
  on_status-Halts pod name (some status) =
      Halts-if l (nat_eq status.restart_count 0 && not (is_some status.terminated)) _ _ tt
        (Answered-last l (finish_delete l) (λ e h. rw h.0 tt))

  on_label-Halts : (pod : Pod) (o : Option String) → Halts l (Pods.on_label l pod o)
  unfolding Pods.on_label Pods.on_fluent_pvc
  on_label-Halts pod none = tt
  on_label-Halts pod (some name) = Halts-if l (not (is_pod_running_phase pod)) _ _ tt (
      answered l (Pods.on_fluent_pvc l pod)
        (λ fpvc.
          Halts-if l (not fpvc.spec.delete_pod_if_sidecar_container_termination_detected) _ _ tt (
            on_status-Halts pod fpvc.spec.sidecar_container_template.name (
              find_container_status_by_name pod.container_statuses
                fpvc.spec.sidecar_container_template.name)))
        (λ e. tt) (λ e h. tt))

  pub reconcile_pod-Halts : (req : ObjectKey) → Halts l (Pods.reconcile l req)
  unfolding Pods.reconcile Pods.on_pod
  reconcile_pod-Halts req =
      answered l (Pods.on_pod l)
        (λ pod. on_label-Halts pod (label pod.meta.labels pod_label_fluent_pvc_name)) (λ e. tt)
        (λ e h. rw h.0 tt)
