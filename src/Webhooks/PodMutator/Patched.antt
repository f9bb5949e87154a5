-- ===== src/Webhooks/PodMutator/Patched.antt =====
-- The patched pod of webhooks/pod_webhook.go.
use fluent_pvc_operator.Prelude.{
  String, ◌≡◌, refl, ◌∙◌, Option, none, some, [], ◌∷◌, ◌++◌, ◌==◌, eq_iff, arith, if◌then◌else◌,
}
use fluent_pvc_operator.Kube.{StringMap, Pod, PodSpec, lookup_key, insert_key}
use fluent_pvc_operator.Api.{FluentPvc, pod_label_fluent_pvc_binding_name}
use fluent_pvc_operator.Injection.{
  inject_volumes, inject_or_replace_volume, inject_or_replace_container,
}
use fluent_pvc_operator.Injection.Lookup.{has_name}
use fluent_pvc_operator.Injection.Names.{map-replace_loop}
use fluent_pvc_operator.Injection.Specs.{
  HasVolume, IsMounted, names_of, container_name, equipped_spec, equipped_spec-HasVolume,
  equipped_spec-IsMounted, names-equipped_spec, inject_or_replace_volume-HasVolume,
  containers-inject_volumes,
}
use fluent_pvc_operator.Controllers.Claims.Finalizing.{claim_volume, claim_mount}
use fluent_pvc_operator.Controllers.Pods.{label}
use fluent_pvc_operator.Webhooks.PodMutator.{add_label, patch_spec, patch_pod}

lookup-insert :
    (k j v : String) (m : StringMap)
    → lookup_key j (insert_key k v m) ≡ (if k == j then some v else lookup_key j m)
unfolding lookup_key insert_key
lookup-insert k j v [] = refl
lookup-insert k j v ((i, w) ∷ m) =
    ground (arith, eq_iff k j, eq_iff i k, eq_iff i j, lookup-insert k j v m)

label-add_label :
    (k j v : String) (m : Option StringMap)
    → label (add_label k v m) j ≡ (if k == j then some v else label m j)
unfolding label add_label lookup_key insert_key
label-add_label k j v none = refl
label-add_label k j v (some m) = lookup-insert k j v m

module _ (fpvc : FluentPvc) (name : String) (spec : PodSpec) where
  abbrev with_volumes : PodSpec
  with_volumes =
      inject_or_replace_volume (inject_volumes spec fpvc.spec.common_volumes)
        (claim_volume fpvc name)

  abbrev with_sidecar : PodSpec
  with_sidecar = inject_or_replace_container with_volumes fpvc.spec.sidecar_container_template

  patch_spec-equipped :
      patch_spec fpvc name spec
      ≡ equipped_spec with_sidecar fpvc.spec.common_volume_mounts
          (claim_mount fpvc)
          fpvc.spec.common_envs
  unfolding patch_spec
  patch_spec-equipped = refl

  with_sidecar-HasVolume : HasVolume (claim_volume fpvc name) with_sidecar
  unfolding inject_or_replace_container
  with_sidecar-HasVolume =
      inject_or_replace_volume-HasVolume (inject_volumes spec fpvc.spec.common_volumes)
        (claim_volume fpvc name)

  containers-with_volumes : with_volumes.containers ≡ spec.containers
  unfolding inject_or_replace_volume
  containers-with_volumes = containers-inject_volumes spec fpvc.spec.common_volumes

  names-with_sidecar : names_of with_sidecar ≡ (
      if has_name container_name fpvc.spec.sidecar_container_template.name spec.containers
      then names_of spec
      else names_of spec ++ fpvc.spec.sidecar_container_template.name ∷ [])
  unfolding inject_or_replace_container
  names-with_sidecar =
      map-replace_loop container_name fpvc.spec.sidecar_container_template with_volumes.containers
      ∙ rw containers-with_volumes

  -- The patched pod has the claim as a volume under the volume name of the FluentPVC, every one of
  -- its containers mounts it at the mount path, and its containers' names are those before, with
  -- the sidecar's name last if it was not among them.
  pub patch_spec_lem :
      HasVolume (claim_volume fpvc name) (patch_spec fpvc name spec)
      × IsMounted (claim_mount fpvc) (patch_spec fpvc name spec)
      × (names_of (patch_spec fpvc name spec) ≡ (
          if has_name container_name fpvc.spec.sidecar_container_template.name spec.containers
          then names_of spec
          else names_of spec ++ fpvc.spec.sidecar_container_template.name ∷ []))
  patch_spec_lem = rw patch_spec-equipped (
    equipped_spec-HasVolume with_sidecar fpvc.spec.common_volume_mounts (claim_mount fpvc)
        fpvc.spec.common_envs (claim_volume fpvc name) with_sidecar-HasVolume,
    equipped_spec-IsMounted with_sidecar fpvc.spec.common_volume_mounts (claim_mount fpvc)
        fpvc.spec.common_envs,
    names-equipped_spec with_sidecar fpvc.spec.common_volume_mounts (claim_mount fpvc)
          fpvc.spec.common_envs
        ∙ names-with_sidecar,
  )

-- The patched pod has the label of the binding's name set to the name of the claim, and every other
-- label as before.
pub label-patch_pod :
    (fpvc : FluentPvc) (name j : String) (pod : Pod)
    → label (patch_pod fpvc name pod).meta.labels j
      ≡ (if pod_label_fluent_pvc_binding_name == j then some name else label pod.meta.labels j)
unfolding patch_pod
label-patch_pod fpvc name j pod =
    label-add_label pod_label_fluent_pvc_binding_name j name pod.meta.labels
