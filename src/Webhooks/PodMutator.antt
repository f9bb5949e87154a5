-- ===== src/Webhooks/PodMutator.antt =====
-- webhooks/pod_webhook.go
mod Patch
pub mod Patched
pub mod Creations
pub mod Admitted
pub mod Served
unfoldable pub use Patch.*
use Prim.Native.String.{◌++◌ as append}
use fluent_pvc_operator.Prelude.{ℕ, String, Option, none, some, List, [], ◌∷◌}
use fluent_pvc_operator.Kube.{
  Library, ObjectMeta, Pod, Container, PersistentVolumeClaim, claim_unset, Reply, success, failure,
  api, Outcome, ok, err, panicked, empty_meta, ApiError,
}
use fluent_pvc_operator.Api.{
  FluentPvc, FluentPvcBinding, ObjectIdentity, pod_label_fluent_pvc_name, pvc_finalizer_name,
  fluent_pvc_binding_finalizer_name, set_fluent_pvc, set_pod, set_pvc, set_phase_pending,
}
use fluent_pvc_operator.Controllers.Pods.{label}
use fluent_pvc_operator.Hash.{compute_hash}
use fluent_pvc_operator.Effect.{
  Program, ret, call, get_fluent_pvc, random_count, create_pvc, create_binding,
  update_binding_status,
}
use fluent_pvc_operator.Webhooks.Admission.{
  Request, Response, denied, errored, patched, crashed, status_bad_request,
  status_internal_server_error, Codec,
}

-- a response for a failed call
abbrev pub failed : ApiError → Response
failed e = errored status_internal_server_error (api e)

abbrev pub patch_from : Request → Reply String → Response
patch_from req (success marshaled) = patched req.raw marshaled
patch_from req (failure e) = failed e

module _ (codec : Codec) where
  unfoldable pub pod_admission_response : Pod → Request → Response
  pod_admission_response pod req = patch_from req (codec.marshal_pod pod)

  -- "%s-%s-%s" of the name and the two hashes
  unfoldable pub claim_name : FluentPvc → Pod → ℕ → String
  claim_name fpvc pod count = append fpvc.meta.name (
      append "-" (
        append (compute_hash codec.dump_fluent_pvc codec.safe_encode fpvc none)
          (append "-" (compute_hash codec.dump_pod codec.safe_encode pod (some count)))))

  module _ (l : Library) where
    unfoldable pub new_claim : Request → FluentPvc → String → PersistentVolumeClaim
    new_claim req fpvc name = record {
      meta =
          l.add_finalizer (record (empty_meta) { name = name; namespace = req.namespace })
            pvc_finalizer_name;
      spec = fpvc.spec.pvc_spec_template;
      phase = claim_unset;
    }

    unfoldable pub new_binding :
        Request → FluentPvc → Pod → PersistentVolumeClaim → String → FluentPvcBinding
    unfolding set_fluent_pvc set_pod set_pvc
    new_binding req fpvc pod pvc name =
        let nobody : ObjectIdentity = record { name = ""; uid = "" } in
        let b : FluentPvcBinding = record {
          meta =
              l.add_finalizer (record (empty_meta) { name = name; namespace = req.namespace })
                fluent_pvc_binding_finalizer_name;
          spec = record { fluent_pvc = nobody; pvc = nobody; pod = nobody };
          status = record { conditions = []; phase = "" };
        } in
        set_pvc (set_pod (set_fluent_pvc b fpvc) pod) pvc

    unfoldable pub on_status_updated :
        Request → FluentPvc → Pod → String → Reply FluentPvcBinding → Response
    unfolding patch_pod pod_admission_response
    on_status_updated req fpvc pod name (success b) =
        pod_admission_response (patch_pod fpvc name pod) req
    on_status_updated req fpvc pod name (failure e) = failed e

    unfoldable pub on_binding_created :
        Request → FluentPvc → Pod → String → Reply FluentPvcBinding → Program Response
    unfolding on_status_updated set_phase_pending
    on_binding_created req fpvc pod name (success b) =
        call (update_binding_status (set_phase_pending b))
          (λ r. ret (on_status_updated req fpvc pod name r))
    on_binding_created req fpvc pod name (failure e) = ret (failed e)

    -- `ctrl.SetControllerReference(fpvc, b, m.Scheme())`
    unfoldable pub on_owned :
        Request
        → FluentPvc
        → Pod
        → String
        → FluentPvcBinding
        → Outcome ObjectMeta
        → Program Response
    unfolding on_binding_created
    on_owned req fpvc pod name b (ok m) =
        call (create_binding (record b { meta = m })) (on_binding_created req fpvc pod name)
    on_owned req fpvc pod name b (err e) = ret (errored status_internal_server_error e)
    on_owned req fpvc pod name b panicked = ret crashed

    unfoldable pub on_claim_created :
        Request → FluentPvc → Pod → String → Reply PersistentVolumeClaim → Program Response
    unfolding on_owned
    on_claim_created req fpvc pod name (success pvc) =
        let b = new_binding req fpvc pod pvc name in
        on_owned req fpvc pod name b (l.set_controller_reference "FluentPVC" fpvc.meta b.meta)
    on_claim_created req fpvc pod name (failure e) = ret (failed e)

    unfoldable pub on_random : Request → FluentPvc → Pod → ℕ → Program Response
    unfolding on_claim_created
    on_random req fpvc pod count =
        let name = claim_name fpvc pod count in
        call (create_pvc (new_claim req fpvc name)) (on_claim_created req fpvc pod name)

    unfoldable pub on_fluent_pvc : Request → Pod → Reply FluentPvc → Program Response
    unfolding on_random
    on_fluent_pvc req pod (success fpvc) = call random_count (on_random req fpvc pod)
    on_fluent_pvc req pod (failure e) = ret (failed e)

    unfoldable pub on_label : Request → Pod → Option String → Program Response
    unfolding on_fluent_pvc
    on_label req pod none = ret (denied "pod does not have %s label.")
    on_label req pod (some n) = call (get_fluent_pvc n) (on_fluent_pvc req pod)

    unfoldable pub on_containers : Request → Pod → List Container → Program Response
    unfolding on_label label
    on_containers req pod [] = ret (denied "pod has no containers")
    on_containers req pod (c ∷ cs) =
        on_label req pod (label pod.meta.labels pod_label_fluent_pvc_name)

    unfoldable pub on_decoded : Request → Reply Pod → Program Response
    unfolding on_containers
    on_decoded req (success pod) = on_containers req pod pod.spec.containers
    on_decoded req (failure e) = ret (errored status_bad_request (api e))

    unfoldable pub handle : Request → Program Response
    unfolding on_decoded
    handle req = on_decoded req (codec.decode_pod req.raw)
