-- ===== src/Webhooks/PodMutator/Served.antt =====
-- What a run of the mutating handler of webhooks/pod_webhook.go that lets a pod in has made for it.
use fluent_pvc_operator.Prelude.{true, String, ◌≡◌, refl, ◌∙◌, some, [], ◌∷◌, arith, eq_refl}
use fluent_pvc_operator.Kube.{
  Library, LibraryLaws, ObjectMeta, Pod, PersistentVolumeClaim, Reply, success, failure, ok,
  empty_meta,
}
use fluent_pvc_operator.Api.{
  FluentPvc, FluentPvcBinding, pod_label_fluent_pvc_binding_name, pvc_finalizer_name,
  set_phase_pending, fluent_pvc_binding_finalizer_name,
}
use fluent_pvc_operator.Injection.Specs.{HasVolume, IsMounted}
use fluent_pvc_operator.Effect.{
  Environment, calls, result, get_fluent_pvc, random_count, create_pvc, create_binding,
  update_binding_status,
}
use fluent_pvc_operator.Controllers.Claims.Finalizing.{claim_volume, claim_mount}
use fluent_pvc_operator.Webhooks.Admission.{Request, Codec, patched}
use fluent_pvc_operator.Webhooks.PodMutator.{
  handle, label, new_claim, new_binding, patch_pod, patch_from, pod_admission_response,
}
use fluent_pvc_operator.Webhooks.PodMutator.Patched.{patch_spec_lem, label-patch_pod}
use fluent_pvc_operator.Webhooks.PodMutator.Creations.{
  ReadsForPod, fresh_name, owned_binding, creations,
}
use fluent_pvc_operator.Webhooks.PodMutator.Admitted.{admits, handle-admits}

-- The claim of that name for the request: the template of the FluentPVC under the operator's
-- finalizer.
pub record IsClaimFor (l : Library) (req : Request) (fpvc : FluentPvc) (name : String)
    (claim : PersistentVolumeClaim) : Type 0 where
  pub claim_name : claim.meta.name ≡ name
  pub claim_namespace : claim.meta.namespace ≡ req.namespace
  pub claim_spec : claim.spec ≡ fpvc.spec.pvc_spec_template
  pub protected : l.contains_finalizer claim.meta pvc_finalizer_name ≡ true

-- The binding of that name: controlled by the FluentPVC, with the identities of the three objects.
pub record IsBindingFor (l : Library) (req : Request) (fpvc : FluentPvc) (pod : Pod) (name : String)
    (claim : PersistentVolumeClaim) (b : FluentPvcBinding) : Type 0 where
  pub binding_name : b.meta.name ≡ name
  pub binding_namespace : b.meta.namespace ≡ req.namespace
  pub controlled :
      l.get_controller_of b.meta
      ≡ some (record {
        api_version = l.api_version_of "FluentPVC";
        kind = "FluentPVC";
        name = fpvc.meta.name;
        uid = fpvc.meta.uid;
        controller = some "true";
      })
  pub of_fluent_pvc : b.spec.fluent_pvc ≡ record { name = fpvc.meta.name; uid = fpvc.meta.uid }
  pub of_claim : b.spec.pvc ≡ record { name = claim.meta.name; uid = claim.meta.uid }
  pub of_pod : b.spec.pod ≡ record { name = pod.meta.name; uid = pod.meta.uid }

-- The pod has the claim of that name as a volume that every container mounts, and is labelled with
-- that name.
pub record UsesClaim (fpvc : FluentPvc) (name : String) (pod : Pod) : Type 0 where
  pub has_claim : HasVolume (claim_volume fpvc name) pod.spec
  pub mounts_claim : IsMounted (claim_mount fpvc) pod.spec
  pub binding_label : label pod.meta.labels pod_label_fluent_pvc_binding_name ≡ some name

-- The same object, now pending.
pub record IsPending (b p : FluentPvcBinding) : Type 0 where
  pub pending_meta : p.meta ≡ b.meta
  pub pending_spec : p.spec ≡ b.spec
  pub phase : p.status.phase ≡ "Pending"

module _ (codec : Codec) (l : Library) (env : Environment) (req : Request) where
  -- The pod of the request was let in with what was made for it.
  pub record Serves : Type 0 where
    pub pod : Pod
    pub fluent_pvc_name : String
    pub fpvc : FluentPvc
    pub reads : ReadsForPod codec l env req pod fluent_pvc_name fpvc
    pub name : String
    pub claim : PersistentVolumeClaim
    pub stored_claim : PersistentVolumeClaim
    pub binding : FluentPvcBinding
    pub stored_binding : FluentPvcBinding
    pub pending : FluentPvcBinding
    pub final : FluentPvcBinding
    pub admitted_pod : Pod
    pub marshaled : String
    pub calls_made :
        calls env 0 (handle codec l req)
        ≡ get_fluent_pvc fluent_pvc_name
          ∷ random_count
          ∷ create_pvc claim
          ∷ create_binding binding
          ∷ update_binding_status pending
          ∷ []
    pub claim_made : env 2 (create_pvc claim) ≡ success stored_claim
    pub binding_made : env 3 (create_binding binding) ≡ success stored_binding
    pub phase_set : env 4 (update_binding_status pending) ≡ success final
    pub is_claim : IsClaimFor l req fpvc name claim
    pub is_binding : IsBindingFor l req fpvc pod name stored_claim binding
    pub is_pending : IsPending stored_binding pending
    pub uses_claim : UsesClaim fpvc name admitted_pod
    pub is_marshaled : codec.marshal_pod admitted_pod ≡ success marshaled
    pub answered : result env 0 (handle codec l req) ≡ patched req.raw marshaled

  new_claim-IsClaimFor :
      LibraryLaws l
      → (fpvc : FluentPvc) (name : String)
      → IsClaimFor l req fpvc name (new_claim codec l req fpvc name)
  unfolding new_claim
  new_claim-IsClaimFor laws fpvc name =
      let bare = record (empty_meta) { name = name; namespace = req.namespace } in
      record {
        claim_name = (laws.key-add bare pvc_finalizer_name).1;
        claim_namespace = (laws.key-add bare pvc_finalizer_name).0;
        claim_spec = refl;
        protected = ground (
          arith,
          laws.contains-add bare pvc_finalizer_name pvc_finalizer_name,
          eq_refl pvc_finalizer_name,
        );
      }

  owned_binding-IsBindingFor :
      LibraryLaws l
      → (pod : Pod) (n : String) (fpvc : FluentPvc) (claim : PersistentVolumeClaim) (m : ObjectMeta)
      → l.set_controller_reference "FluentPVC" fpvc.meta
          (new_binding codec l req fpvc pod claim (fresh_name codec l env req pod n fpvc)).meta
        ≡ ok m
      → IsBindingFor l req fpvc pod
          (fresh_name codec l env req pod n fpvc)
          claim
          (owned_binding codec l env req pod n fpvc claim m)
  unfolding new_binding
  owned_binding-IsBindingFor laws pod n fpvc claim m owned =
      let name = fresh_name codec l env req pod n fpvc in
      let bare = record (empty_meta) { name = name; namespace = req.namespace } in
      let (space, same) = laws.key-set_controller "FluentPVC" fpvc.meta _ m owned in
      let (space', same') = laws.key-add bare fluent_pvc_binding_finalizer_name in
      record {
        binding_name = same ∙ same';
        binding_namespace = space ∙ space';
        controlled = laws.controller-set_controller "FluentPVC" fpvc.meta _ m owned;
        of_fluent_pvc = refl;
        of_claim = refl;
        of_pod = refl;
      }

  patch_pod-UsesClaim :
      (fpvc : FluentPvc) (name : String) (pod : Pod) → UsesClaim fpvc name (patch_pod fpvc name pod)
  patch_pod-UsesClaim fpvc name pod =
      let (volume, mounted, names) = patch_spec_lem fpvc name pod.spec in
      record {
        has_claim = unfold patch_pod in volume;
        mounts_claim = unfold patch_pod in mounted;
        binding_label =
            label-patch_pod fpvc name pod_label_fluent_pvc_binding_name pod
            ∙ ground (arith, eq_refl pod_label_fluent_pvc_binding_name);
      }

  set_phase_pending-IsPending : (b : FluentPvcBinding) → IsPending b (set_phase_pending b)
  unfolding set_phase_pending
  set_phase_pending-IsPending b = record { pending_meta = refl; pending_spec = refl; phase = refl }

  patch_from-admits :
      (r : Reply String)
      → admits (patch_from req r) ≡ true
      → (marshaled : String) × (r ≡ success marshaled)
        × (patch_from req r ≡ patched req.raw marshaled)
  patch_from-admits (success marshaled) h = (marshaled, refl, refl)
  patch_from-admits (failure e) h = cc

  pod_admission_response-admits :
      (pod : Pod)
      → admits (pod_admission_response codec pod req) ≡ true
      → (marshaled : String) × (codec.marshal_pod pod ≡ success marshaled)
        × (pod_admission_response codec pod req ≡ patched req.raw marshaled)
  unfolding pod_admission_response
  pod_admission_response-admits pod h = patch_from-admits (codec.marshal_pod pod) h

  -- Whatever the server answers: if the handler lets a pod be created, then the request decodes to
  -- a pod with containers and the label of a FluentPVC that was read, and the run made five calls:
  -- it read the FluentPVC, drew a random count, created a claim of some name in the namespace of
  -- the request, with the template of the FluentPVC and the operator's finalizer, created a binding
  -- of the same name and namespace, controlled by the FluentPVC and with the identities of the
  -- FluentPVC, the stored claim and the pod, and stored the phase of this binding as pending, each
  -- write accepted; and the response is the marshaled form of a pod that has the claim as a volume,
  -- mounts it in every container and is labelled with the name.
  pub handle-serves : LibraryLaws l → admits (result env 0 (handle codec l req)) ≡ true → Serves
  handle-serves laws h =
      let s = handle-admits codec l env req h in
      let name = fresh_name codec l env req s.pod s.fluent_pvc_name s.fpvc in
      let (pvc, made, (m, owned, (stored, final, bound, set))) = s.created in
      let (run, answer) =
        creations codec l env req s.pod s.fluent_pvc_name s.fpvc s.reads pvc m stored final made
          owned bound set in
      let (marshaled, e, f) =
        pod_admission_response-admits (patch_pod s.fpvc name s.pod) (rw answer at h) in
      record {
        pod = s.pod;
        fluent_pvc_name = s.fluent_pvc_name;
        fpvc = s.fpvc;
        reads = s.reads;
        name = name;
        claim = _;
        stored_claim = pvc;
        binding = _;
        stored_binding = stored;
        pending = _;
        final = final;
        admitted_pod = patch_pod s.fpvc name s.pod;
        marshaled = marshaled;
        calls_made = run;
        claim_made = made;
        binding_made = bound;
        phase_set = set;
        is_claim = new_claim-IsClaimFor laws s.fpvc name;
        is_binding = owned_binding-IsBindingFor laws s.pod s.fluent_pvc_name s.fpvc pvc m owned;
        is_pending = set_phase_pending-IsPending stored;
        uses_claim = patch_pod-UsesClaim s.fpvc name s.pod;
        is_marshaled = e;
        answered = answer ∙ f;
      }
