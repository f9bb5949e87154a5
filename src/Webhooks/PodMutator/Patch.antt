-- ===== src/Webhooks/PodMutator/Patch.antt =====
-- The pod that the webhook answers with: the last part of the handler of webhooks/pod_webhook.go.
use fluent_pvc_operator.Prelude.{String, Option, none, some, []}
use fluent_pvc_operator.Kube.{StringMap, Pod, PodSpec, insert_key}
use fluent_pvc_operator.Api.{FluentPvc, pod_label_fluent_pvc_binding_name}
use fluent_pvc_operator.Injection.{
  inject_volumes, inject_or_replace_volume, inject_or_replace_container, inject_volume_mounts,
  inject_or_replace_volume_mount, inject_envs,
}

-- a nil map is made first
unfoldable pub add_label : String → String → Option StringMap → Option StringMap
add_label key value none = some (insert_key key value [])
add_label key value (some m) = some (insert_key key value m)

unfoldable pub patch_spec : FluentPvc → String → PodSpec → PodSpec
unfolding inject_volumes inject_or_replace_volume inject_or_replace_container inject_volume_mounts
    inject_or_replace_volume_mount inject_envs
patch_spec fpvc name spec =
    let with_volumes =
      inject_or_replace_volume (inject_volumes spec fpvc.spec.common_volumes) (record {
        name = fpvc.spec.pvc_volume_name;
        persistent_volume_claim = some name;
        other = "";
      }) in
    let with_sidecar =
      inject_or_replace_container with_volumes fpvc.spec.sidecar_container_template in
    let with_mounts =
      inject_or_replace_volume_mount
        (inject_volume_mounts with_sidecar fpvc.spec.common_volume_mounts)
        (record {
          name = fpvc.spec.pvc_volume_name;
          mount_path = fpvc.spec.pvc_volume_mount_path;
          other = "";
        }) in
    inject_envs with_mounts fpvc.spec.common_envs

unfoldable pub patch_pod : FluentPvc → String → Pod → Pod
unfolding add_label patch_spec
patch_pod fpvc name pod = record pod {
  meta = record (pod.meta) {
    labels = add_label pod_label_fluent_pvc_binding_name name pod.meta.labels;
  };
  spec = patch_spec fpvc name pod.spec;
}
