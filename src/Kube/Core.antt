-- ===== src/Kube/Core.antt =====
-- corev1, batchv1 and storagev1: pods, claims, jobs and storage classes.
use fluent_pvc_operator.Prelude.{ℕ, String, Option, List, []}
use fluent_pvc_operator.Kube.Meta.{ObjectMeta, ConditionStatus}

pub record VolumeMount : Type 0 where
  pub name : String
  pub mount_path : String
  pub other : String

pub record EnvVar : Type 0 where
  pub name : String
  pub value : String
  pub other : String

pub record Container : Type 0 where
  pub name : String
  pub volume_mounts : List VolumeMount
  pub env : List EnvVar
  pub other : String

-- `persistent_volume_claim` is the claim's name, where the volume has that source.
pub record Volume : Type 0 where
  pub name : String
  pub persistent_volume_claim : Option String
  pub other : String

pub record PodSpec : Type 0 where
  pub containers : List Container
  pub volumes : List Volume
  pub other : String

pub data PodPhase : Type 0 where
  pod_pending pod_running pod_succeeded pod_failed pod_unknown : PodPhase
  pod_unset : PodPhase

-- `terminated` is the exit code of a container that has terminated.
pub record ContainerStatus : Type 0 where
  pub name : String
  pub restart_count : ℕ
  pub terminated : Option ℕ

pub record Pod : Type 0 where
  pub meta : ObjectMeta
  pub spec : PodSpec
  pub phase : PodPhase
  pub container_statuses : List ContainerStatus

pub data ClaimPhase : Type 0 where
  claim_pending claim_bound claim_lost claim_unset : ClaimPhase

pub record ClaimSpec : Type 0 where
  pub access_modes : List String
  pub storage_class_name : Option String
  pub other : String

pub record PersistentVolumeClaim : Type 0 where
  pub meta : ObjectMeta
  pub spec : ClaimSpec
  pub phase : ClaimPhase

pub data JobConditionType : Type 0 where
  job_complete job_failed job_suspended no_type : JobConditionType

pub record JobCondition : Type 0 where
  pub type : JobConditionType
  pub status : ConditionStatus

-- `template` is `Template.Spec`.
pub record JobSpec : Type 0 where
  pub template : PodSpec
  pub other : String

pub record Job : Type 0 where
  pub meta : ObjectMeta
  pub spec : JobSpec
  pub conditions : List JobCondition

abbrev pub empty_pod_spec : PodSpec
empty_pod_spec = record { containers = []; volumes = []; other = "" }
