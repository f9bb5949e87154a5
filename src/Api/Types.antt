-- ===== src/Api/Types.antt =====
-- api/v1alpha1/fluentpvc_types.go and constants/constants.go
use fluent_pvc_operator.Prelude.{String, Bool, List}
use fluent_pvc_operator.Kube.{
  ObjectMeta, Condition, ClaimSpec, JobSpec, Container, EnvVar, Volume, VolumeMount,
}

pub record FluentPvcSpec : Type 0 where
  pub pvc_spec_template : ClaimSpec
  pub pvc_finalizer_job_spec_template : JobSpec
  pub pvc_volume_name : String
  pub pvc_volume_mount_path : String
  pub sidecar_container_template : Container
  pub common_envs : List EnvVar
  pub common_volumes : List Volume
  pub common_volume_mounts : List VolumeMount
  pub delete_pod_if_sidecar_container_termination_detected : Bool

pub record FluentPvcStatus : Type 0 where
  pub conditions : List Condition

pub record FluentPvc : Type 0 where
  pub meta : ObjectMeta
  pub spec : FluentPvcSpec
  pub status : FluentPvcStatus

pub record ObjectIdentity : Type 0 where
  pub name : String
  pub uid : String

pub record FluentPvcBindingSpec : Type 0 where
  pub fluent_pvc : ObjectIdentity
  pub pvc : ObjectIdentity
  pub pod : ObjectIdentity

-- FluentPVCBindingConditionType and FluentPVCBindingPhase are strings.
abbrev pub ready : String
ready = "Ready"

abbrev pub out_of_use : String
out_of_use = "OutOfUse"

abbrev pub finalizer_job_applied : String
finalizer_job_applied = "FinalizerJobApplied"

abbrev pub finalizer_job_succeeded : String
finalizer_job_succeeded = "FinalizerJobSucceeded"

abbrev pub finalizer_job_failed : String
finalizer_job_failed = "FinalizerJobFailed"

abbrev pub unknown : String
unknown = "Unknown"

abbrev pub pod_missing : String
pod_missing = "PodMissing"

abbrev pub phase_pending : String
phase_pending = "Pending"

pub record FluentPvcBindingStatus : Type 0 where
  pub conditions : List Condition
  pub phase : String

pub record FluentPvcBinding : Type 0 where
  pub meta : ObjectMeta
  pub spec : FluentPvcBindingSpec
  pub status : FluentPvcBindingStatus

abbrev pub owner_controller_field : String
owner_controller_field = ".metadata.ownerReference.controller"

abbrev pub pod_label_fluent_pvc_name : String
pod_label_fluent_pvc_name = "fluent-pvc-operator.tech.zozo.com/fluent-pvc-name"

abbrev pub pod_label_fluent_pvc_binding_name : String
pod_label_fluent_pvc_binding_name = "fluent-pvc-operator.tech.zozo.com/fluent-pvc-binding-name"

abbrev pub pvc_finalizer_name : String
pvc_finalizer_name = "fluent-pvc-operator.tech.zozo.com/pvc-protection"

abbrev pub fluent_pvc_binding_finalizer_name : String
fluent_pvc_binding_finalizer_name = "fluent-pvc-operator.tech.zozo.com/fluentpvcbinding-protection"

abbrev pub fluent_pvc_finalizer_name : String
fluent_pvc_finalizer_name = "fluent-pvc-operator.tech.zozo.com/fluentpvc-protection"

-- groupversion_info.go: `GroupVersion.String()`
abbrev pub group_version : String
group_version = "fluent-pvc-operator.tech.zozo.com/v1alpha1"
