-- ===== src/Webhooks/FluentPvcValidator.antt =====
-- webhooks/fluentpvc_webhook.go
pub mod Verdict
use fluent_pvc_operator.Prelude.{
  String, not, Option, none, some, List, [], ◌∷◌, ◌==◌, if◌then◌else◌,
}
use fluent_pvc_operator.Kube.{
  ObjectMeta, Pod, pod_unset, PersistentVolumeClaim, claim_unset, Job, Reply, success, failure, api,
  empty_meta, empty_pod_spec,
}
use fluent_pvc_operator.Api.{FluentPvc}
use fluent_pvc_operator.Injection.{inject_envs}
use fluent_pvc_operator.Effect.{
  Program, ret, call, get_storage_class, dry_run_create_job, dry_run_create_pvc, dry_run_create_pod,
}
use fluent_pvc_operator.Webhooks.Admission.{
  Request, Response, allowed, denied, errored, crashed, status_bad_request,
  status_internal_server_error, Codec,
}

-- the name and the namespace "default"
abbrev pub named : FluentPvc → ObjectMeta
named fpvc = record (empty_meta) { name = fpvc.meta.name; namespace = "default" }

abbrev pub template_job : FluentPvc → Job
unfolding inject_envs
template_job fpvc =
    let spec = fpvc.spec.pvc_finalizer_job_spec_template in
    record {
      meta = named fpvc;
      spec = record spec { template = inject_envs spec.template fpvc.spec.common_envs };
      conditions = [];
    }

abbrev pub template_pvc : FluentPvc → PersistentVolumeClaim
template_pvc fpvc = record {
  meta = named fpvc;
  spec = fpvc.spec.pvc_spec_template;
  phase = claim_unset;
}

abbrev pub template_pod : FluentPvc → Pod
template_pod fpvc = record {
  meta = named fpvc;
  spec = record (empty_pod_spec) { containers = fpvc.spec.sidecar_container_template ∷ [] };
  phase = pod_unset;
  container_statuses = [];
}

-- One step after the other; a failed call ends the handler.
abbrev pub on_success : Program Response → Reply (Unit {0}) → Program Response
on_success next (success _) = next
on_success next (failure e) = ret (errored status_internal_server_error (api e))

unfoldable pub dry_runs : FluentPvc → Program Response
unfolding template_job
dry_runs fpvc = call (dry_run_create_job (template_job fpvc)) (
    on_success (
      call (dry_run_create_pvc (template_pvc fpvc))
        (on_success (call (dry_run_create_pod (template_pod fpvc)) (on_success (ret allowed))))))

-- `*fpvc.Spec.PVCSpecTemplate.StorageClassName`
unfoldable pub check_storage_class : FluentPvc → Option String → Program Response
unfolding dry_runs
check_storage_class fpvc none = ret crashed
check_storage_class fpvc (some name) = call (get_storage_class name) (on_success (dry_runs fpvc))

-- the loop over the access modes
unfoldable pub check_access_modes : FluentPvc → List String → Program Response
unfolding check_storage_class
check_access_modes fpvc [] = check_storage_class fpvc fpvc.spec.pvc_spec_template.storage_class_name
check_access_modes fpvc (m ∷ ms) =
    if not (m == "ReadWriteOnce")
    then ret (
        denied
          "Only 'ReadWriteOnce' is acceptable for FluentPVC.spec.pvcSpecTemplate.accessModes, but '%s' is specified.")
    else check_access_modes fpvc ms

unfoldable pub on_decoded : Reply FluentPvc → Program Response
unfolding check_access_modes
on_decoded (success fpvc) = check_access_modes fpvc fpvc.spec.pvc_spec_template.access_modes
on_decoded (failure e) = ret (errored status_bad_request (api e))

unfoldable pub handle : Codec → Request → Program Response
unfolding on_decoded
handle codec req = on_decoded (codec.decode_fluent_pvc req.raw)
