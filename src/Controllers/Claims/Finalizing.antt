-- ===== src/Controllers/Claims/Finalizing.antt =====
-- The pod specification of the finalizer job, from the mutate function of
-- controllers/pvc_controller.go.
use fluent_pvc_operator.Prelude.{String, ◌≡◌, ◌∙◌, some, refl}
use fluent_pvc_operator.Kube.{PodSpec, Volume, VolumeMount}
use fluent_pvc_operator.Api.{FluentPvc}
use fluent_pvc_operator.Injection.Specs.{
  HasVolume, IsMounted, names_of, inject_or_replace_volume-HasVolume, names-inject_volumes,
  equipped_spec, equipped_spec-HasVolume, equipped_spec-IsMounted, names-equipped_spec,
  names-inject_or_replace_volume,
}
use fluent_pvc_operator.Controllers.Claims.{
  finalizer_pod_spec, inject_or_replace_volume, inject_volumes,
}

-- The volume and the mount of the claim.
abbrev pub claim_volume : FluentPvc → String → Volume
claim_volume fpvc claim_name = record {
  name = fpvc.spec.pvc_volume_name;
  persistent_volume_claim = some claim_name;
  other = "";
}

abbrev pub claim_mount : FluentPvc → VolumeMount
claim_mount fpvc = record {
  name = fpvc.spec.pvc_volume_name;
  mount_path = fpvc.spec.pvc_volume_mount_path;
  other = "";
}

module _ (fpvc : FluentPvc) (claim_name : String) (template : PodSpec) where
  abbrev with_claim : PodSpec
  with_claim =
      inject_or_replace_volume (inject_volumes template fpvc.spec.common_volumes)
        (claim_volume fpvc claim_name)

  finalizer_pod_spec-equipped :
      finalizer_pod_spec fpvc claim_name template
      ≡ equipped_spec with_claim fpvc.spec.common_volume_mounts
          (claim_mount fpvc)
          fpvc.spec.common_envs
  unfolding finalizer_pod_spec
  finalizer_pod_spec-equipped = refl

  -- The pods of a finalizer job have the claim as a volume under the volume name of the FluentPVC,
  -- every one of their containers mounts it at the mount path, and the names of the containers are
  -- those of the template.
  pub finalizer_pod_spec_lem :
      HasVolume (claim_volume fpvc claim_name) (finalizer_pod_spec fpvc claim_name template)
      × IsMounted (claim_mount fpvc) (finalizer_pod_spec fpvc claim_name template)
      × (names_of (finalizer_pod_spec fpvc claim_name template) ≡ names_of template)
  finalizer_pod_spec_lem = rw finalizer_pod_spec-equipped (
    equipped_spec-HasVolume with_claim _ _ _ (claim_volume fpvc claim_name)
        (inject_or_replace_volume-HasVolume _ _),
    equipped_spec-IsMounted with_claim fpvc.spec.common_volume_mounts (claim_mount fpvc)
        fpvc.spec.common_envs,
    names-equipped_spec with_claim fpvc.spec.common_volume_mounts (claim_mount fpvc)
          fpvc.spec.common_envs
        ∙ names-inject_or_replace_volume _ (claim_volume fpvc claim_name)
        ∙ names-inject_volumes template fpvc.spec.common_volumes,
  )
