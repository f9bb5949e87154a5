-- ===== src/Examples/Data.antt =====
-- A cluster with one pod, its claim and its binding, and an environment that answers from it.
use fluent_pvc_operator.Webhooks.Admission.{Codec, Request}
use fluent_pvc_operator.Prelude.{ℕ, String, true, none, some, List, [], ◌∷◌, if◌then◌else◌, ◌==◌}
use fluent_pvc_operator.Kube.{
  ObjectMeta, empty_meta, ApiError, OwnerReference, Condition, condition_true, Pod, PodSpec,
  pod_running, Container, ContainerStatus, PersistentVolumeClaim, claim_bound, success, failure, ok,
  Job, job_complete, ObjectKey,
}
use fluent_pvc_operator.Api.{
  FluentPvc, FluentPvcBinding, pod_label_fluent_pvc_name, pvc_finalizer_name,
  fluent_pvc_binding_finalizer_name, group_version,
}
use fluent_pvc_operator.Effect.{
  Environment, get_binding, create_binding, get_pod, get_pvc, get_fluent_pvc, get_storage_class,
  list_pods, list_jobs, list_bindings, list_binding_page, update_binding, update_binding_status,
  update_fluent_pvc, create_pvc, update_pvc, delete_binding, delete_pod, delete_pvc,
  dry_run_create_job, dry_run_create_pvc, dry_run_create_pod, create_or_update_job, send_event,
  time_now, random_count,
}

abbrev pub named : String → String → ObjectMeta
named name uid = record (empty_meta) {
  name = name;
  uid = uid;
  namespace = "ns";
  resource_version = "1";
}

abbrev pub sidecar : Container
sidecar = record { name = "sidecar"; volume_mounts = []; env = []; other = "fluentd" }

abbrev pub app : Container
app = record { name = "app"; volume_mounts = []; env = []; other = "nginx" }

abbrev pub app_spec : PodSpec
app_spec = record { containers = app ∷ []; volumes = []; other = "" }

abbrev pub fpvc : FluentPvc
fpvc = record {
  meta = named "fluent" "u1";
  spec = record {
    pvc_spec_template = record {
      access_modes = "ReadWriteOnce" ∷ [];
      storage_class_name = some "standard";
      other = "1Gi";
    };
    pvc_finalizer_job_spec_template = record { template = app_spec; other = "" };
    pvc_volume_name = "data";
    pvc_volume_mount_path = "/data";
    sidecar_container_template = sidecar;
    common_envs = record { name = "DIR"; value = "/data"; other = "" } ∷ [];
    common_volumes = [];
    common_volume_mounts = [];
    delete_pod_if_sidecar_container_termination_detected = true;
  };
  status = record { conditions = [] };
}

-- The same with no storage class.
abbrev pub fpvc_without_class : FluentPvc
fpvc_without_class = record (fpvc) {
  spec = record (fpvc.spec) {
    pvc_spec_template = record (fpvc.spec.pvc_spec_template) { storage_class_name = none };
  };
}

abbrev pub ended : ContainerStatus
ended = record { name = "sidecar"; restart_count = 0; terminated = some 0 }

abbrev pub pod : Pod
pod = record {
  meta = record (named "web" "u2") { labels = some ((pod_label_fluent_pvc_name, "fluent") ∷ []) };
  spec = app_spec;
  phase = pod_running;
  container_statuses = ended ∷ [];
}

abbrev pub claim : PersistentVolumeClaim
claim = record {
  meta = record (named "fluent-1" "u3") { finalizers = pvc_finalizer_name ∷ [] };
  spec = fpvc.spec.pvc_spec_template;
  phase = claim_bound;
}

abbrev pub owner : OwnerReference
owner = record {
  api_version = group_version;
  kind = "FluentPVC";
  name = "fluent";
  uid = "u1";
  controller = some "true";
}

abbrev pub holding : ℕ → String → Condition
holding at type = record {
  type = type;
  status = condition_true;
  last_transition_time = at;
  reason = "";
  message = "";
}

abbrev pub binding : List Condition → FluentPvcBinding
binding conditions = record {
  meta = record (named "fluent-1" "u4") {
    finalizers = fluent_pvc_binding_finalizer_name ∷ [];
    owner_references = owner ∷ [];
  };
  spec = record {
    fluent_pvc = record { name = "fluent"; uid = "u1" };
    pvc = record { name = "fluent-1"; uid = "u3" };
    pod = record { name = "web"; uid = "u2" };
  };
  status = record { conditions = conditions; phase = "" };
}

abbrev pub out_of_use : FluentPvcBinding
out_of_use = binding (holding 1 "Ready" ∷ holding 2 "OutOfUse" ∷ [])

abbrev pub finished : FluentPvcBinding
finished = binding (
    holding 1 "Ready"
    ∷ holding 2 "OutOfUse"
    ∷ holding 3 "FinalizerJobApplied"
    ∷ holding 4 "FinalizerJobSucceeded"
    ∷ [])

-- Every call succeeds; an update stores what it is given; no job is listed.
abbrev pub answers : FluentPvcBinding → FluentPvc → Environment
answers b f n (get_binding k) = success b
answers b f n (get_pod k) = success pod
answers b f n (get_pvc k) = success claim
answers b f n (get_fluent_pvc m) = success f
answers b f n (get_storage_class m) = success tt
answers b f n (list_pods m l) = success (pod ∷ [])
answers b f n (list_jobs o) = success []
answers b f n (list_bindings o) = success (b ∷ [])
answers b f n (list_binding_page l t) = success (record { items = b ∷ []; continue = "" })
answers b f n (create_binding c) = success c
answers b f n (update_binding c) = success c
answers b f n (update_binding_status c) = success c
answers b f n (update_fluent_pvc g) = success g
answers b f n (create_pvc p) = success p
answers b f n (update_pvc p) = success p
answers b f n (delete_binding c o) = success tt
answers b f n (delete_pod p o) = success tt
answers b f n (delete_pvc p o) = success tt
answers b f n (dry_run_create_job j) = success tt
answers b f n (dry_run_create_pvc p) = success tt
answers b f n (dry_run_create_pod p) = success tt
answers b f n (create_or_update_job j g) = ok tt
answers b f n (send_event c) = tt
answers b f n time_now = 10
answers b f n random_count = 7

abbrev pub exists_already : ApiError
exists_already = record { reason = "AlreadyExists"; message = "" }

-- The server does not let a binding be created.
abbrev pub refuses_binding : Environment
refuses_binding n (create_binding c) = failure exists_already
refuses_binding n c = answers out_of_use fpvc n c

abbrev pub succeeded_job : Job
succeeded_job = record {
  meta = named "fluent-1" "u5";
  spec = fpvc.spec.pvc_finalizer_job_spec_template;
  conditions = record { type = job_complete; status = condition_true } ∷ [];
}

abbrev pub codec : Codec
codec = record {
  decode_pod = λ raw. success pod;
  decode_fluent_pvc = λ raw. if raw == "bare" then success fpvc_without_class else success fpvc;
  marshal_pod = λ p. success p.meta.name;
  dump_pod = λ p. 1 ∷ [];
  dump_fluent_pvc = λ f. 2 ∷ [];
  safe_encode = λ digits. "x";
}

abbrev pub key : ObjectKey
key = record { namespace = "ns"; name = "fluent-1" }

abbrev pub request : Request
request = record { namespace = "ns"; raw = "full" }
