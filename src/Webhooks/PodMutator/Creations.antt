-- ===== src/Webhooks/PodMutator/Creations.antt =====
-- The creations of the mutating handler of webhooks/pod_webhook.go.
use fluent_pvc_operator.Prelude.{String, ◌≡◌, some, [], ◌∷◌, arith, true, ◌∙◌, eq_refl, ◌≢◌}
use fluent_pvc_operator.Kube.{
  Library, ObjectMeta, Pod, PersistentVolumeClaim, success, Outcome, LibraryLaws, ok, ApiError,
  failure, empty_meta,
}
use fluent_pvc_operator.Api.{
  FluentPvc, FluentPvcBinding, pod_label_fluent_pvc_name, set_phase_pending, pvc_finalizer_name,
}
use fluent_pvc_operator.Effect.{
  Environment, calls, result, get_fluent_pvc, random_count, create_pvc, create_binding,
  update_binding_status,
}
use fluent_pvc_operator.Webhooks.Admission.{Request, Codec}
use fluent_pvc_operator.Webhooks.PodMutator.{
  handle, claim_name, new_claim, new_binding, label, on_claim_created, on_owned, on_binding_created,
  on_status_updated, failed, pod_admission_response, patch_pod,
}

module _ (codec : Codec) (l : Library) (env : Environment) (req : Request) where
  -- The reads that the creations of a run rest on.
  pub record ReadsForPod (pod : Pod) (n : String) (fpvc : FluentPvc) : Type 0 where
    pub decoded : codec.decode_pod req.raw ≡ success pod
    pub has_containers : pod.spec.containers ≢ []
    pub labelled : label pod.meta.labels pod_label_fluent_pvc_name ≡ some n
    pub fluent_pvc_read : env 0 (get_fluent_pvc n) ≡ success fpvc

  module _ (pod : Pod) (n : String) (fpvc : FluentPvc) where
    abbrev pub fresh_name : String
    fresh_name = claim_name codec fpvc pod (env 1 random_count)

    abbrev pub fresh_claim : PersistentVolumeClaim
    fresh_claim = new_claim codec l req fpvc fresh_name

    -- The binding that is created once the server has stored the claim.
    abbrev pub owned_binding : PersistentVolumeClaim → ObjectMeta → FluentPvcBinding
    owned_binding pvc m = record (new_binding codec l req fpvc pod pvc fresh_name) { meta = m }

    abbrev pub owner_of : PersistentVolumeClaim → Outcome ObjectMeta
    owner_of pvc =
        l.set_controller_reference "FluentPVC" fpvc.meta
          (new_binding codec l req fpvc pod pvc fresh_name).meta

    -- The run up to the creation of the claim.
    run_to_claim :
        ReadsForPod pod n fpvc
        → (calls env 0 (handle codec l req)
            ≡ get_fluent_pvc n
              ∷ random_count
              ∷ create_pvc fresh_claim
              ∷ calls env 3 (
                  on_claim_created codec l req fpvc pod fresh_name
                    (env 2 (create_pvc fresh_claim))))
          × (result env 0 (handle codec l req)
              ≡ result env 3 (
                  on_claim_created codec l req fpvc pod fresh_name
                    (env 2 (create_pvc fresh_claim))))
    unfolding handle
    run_to_claim reads = (ground (arith, reads), ground (arith, reads))

    abbrev pub CreatesInOrder : PersistentVolumeClaim → ObjectMeta → FluentPvcBinding → Type 0
    CreatesInOrder pvc m stored =
        (calls env 0 (handle codec l req)
          ≡ get_fluent_pvc n
            ∷ random_count
            ∷ create_pvc fresh_claim
            ∷ create_binding (owned_binding pvc m)
            ∷ update_binding_status (set_phase_pending stored)
            ∷ [])
        × (result env 0 (handle codec l req)
            ≡ pod_admission_response codec (patch_pod fpvc fresh_name pod) req)

    -- The calls and the response of a run whose three writes the server accepts.
    pub creations :
        ReadsForPod pod n fpvc
        → (pvc : PersistentVolumeClaim) (m : ObjectMeta) (stored final : FluentPvcBinding)
        → env 2 (create_pvc fresh_claim) ≡ success pvc
        → owner_of pvc ≡ ok m
        → env 3 (create_binding (owned_binding pvc m)) ≡ success stored
        → env 4 (update_binding_status (set_phase_pending stored)) ≡ success final
        → CreatesInOrder pvc m stored
    unfolding on_claim_created on_owned on_binding_created on_status_updated new_binding
    creations reads pvc m stored final p o q r =
        ((run_to_claim reads).0 ∙ (ground arith), (run_to_claim reads).1 ∙ (ground arith))

    abbrev pub LeavesClaim : PersistentVolumeClaim → ObjectMeta → ApiError → Type 0
    LeavesClaim pvc m e =
        (calls env 0 (handle codec l req)
          ≡ get_fluent_pvc n
            ∷ random_count
            ∷ create_pvc fresh_claim
            ∷ create_binding (owned_binding pvc m)
            ∷ [])
        × (result env 0 (handle codec l req) ≡ failed e)
        × (l.contains_finalizer fresh_claim.meta pvc_finalizer_name ≡ true)

    -- If in such a run the claim is created and the binding cannot be created, the run ends with an
    -- error response and no further call: the claim that was created stays, with the operator's
    -- finalizer on it.
    pub claim_left_behind :
        LibraryLaws l
        → ReadsForPod pod n fpvc
        → (pvc : PersistentVolumeClaim) (m : ObjectMeta) (e : ApiError)
        → env 2 (create_pvc fresh_claim) ≡ success pvc
        → owner_of pvc ≡ ok m
        → env 3 (create_binding (owned_binding pvc m)) ≡ failure e
        → LeavesClaim pvc m e
    unfolding on_claim_created on_owned on_binding_created new_claim
    claim_left_behind laws reads pvc m e p o q = (
      (run_to_claim reads).0 ∙ (ground arith),
      (run_to_claim reads).1 ∙ (ground arith),
      ground (
        arith,
        laws.contains-add (record (empty_meta) { name = fresh_name; namespace = req.namespace })
            pvc_finalizer_name pvc_finalizer_name,
        eq_refl pvc_finalizer_name,
      ),
    )
