-- ===== src/Webhooks/PodMutator/Admitted.antt =====
-- What an admitted pod has, webhooks/pod_webhook.go.
use fluent_pvc_operator.Webhooks.PodMutator.Creations.{ReadsForPod, fresh_name, fresh_claim}
use fluent_pvc_operator.Webhooks.PodMutator.{
  handle, new_binding, label, on_decoded, on_containers, on_label, on_fluent_pvc, on_random,
  on_claim_created, on_owned, on_binding_created, on_status_updated,
}
use fluent_pvc_operator.Webhooks.Admission.{Request, Response, Codec, allowed, patched}
use fluent_pvc_operator.Effect.{
  Environment, result, get_fluent_pvc, create_pvc, create_binding, update_binding_status,
}
use fluent_pvc_operator.Api.{
  FluentPvc, FluentPvcBinding, set_phase_pending, pod_label_fluent_pvc_name,
}
use fluent_pvc_operator.Kube.{
  Library, Pod, ObjectMeta, PersistentVolumeClaim, Container, Reply, success, failure, Outcome, ok,
  err, panicked,
}
use fluent_pvc_operator.Prelude.{
  ℕ, suc, Bool, true, false, String, ◌≡◌, ◌≢◌, refl, Option, some, none, List, [], ◌∷◌,
}

-- The pod may be created.
abbrev pub admits : Response → Bool
admits allowed = true
admits (patched raw marshaled) = true
admits _ = false

module _ (codec : Codec) (l : Library) (env : Environment) (req : Request) where
  module _ (fpvc : FluentPvc) (pod : Pod) (name : String) where
    -- The binding was created, and the pending phase was stored by call number n.
    abbrev pub HasPhase : ℕ → Reply FluentPvcBinding → Type 0
    HasPhase n r =
        (stored final : FluentPvcBinding) × (r ≡ success stored)
        × (env n (update_binding_status (set_phase_pending stored)) ≡ success final)

    -- `b` was created by call number n with the FluentPVC for its owner.
    abbrev pub HasBinding : ℕ → FluentPvcBinding → Outcome ObjectMeta → Type 0
    HasBinding n b o =
        (m : ObjectMeta) × (o ≡ ok m)
        × HasPhase (suc n) (env n (create_binding (record b { meta = m })))

    -- The claim was created, and then its binding.
    abbrev pub HasClaim : ℕ → Reply PersistentVolumeClaim → Type 0
    HasClaim n r =
        (pvc : PersistentVolumeClaim) × (r ≡ success pvc)
        × HasBinding n (new_binding codec l req fpvc pod pvc name) (
            l.set_controller_reference "FluentPVC" fpvc.meta
              (new_binding codec l req fpvc pod pvc name).meta)

    on_status_updated-admits :
        (r : Reply FluentPvcBinding)
        → admits (on_status_updated codec l req fpvc pod name r) ≡ true
        → (final : FluentPvcBinding) × (r ≡ success final)
    unfolding on_status_updated
    on_status_updated-admits (success b) h = (b, refl)
    on_status_updated-admits (failure e) h = cc

    on_binding_created-admits :
        (n : ℕ) (r : Reply FluentPvcBinding)
        → admits (result env n (on_binding_created codec l req fpvc pod name r)) ≡ true
        → HasPhase n r
    unfolding on_binding_created
    on_binding_created-admits n (success b) h =
        let (final, e) =
          on_status_updated-admits (env n (update_binding_status (set_phase_pending b))) h in
        (b, final, refl, e)
    on_binding_created-admits n (failure e) h = cc

    on_owned-admits :
        (n : ℕ) (b : FluentPvcBinding) (o : Outcome ObjectMeta)
        → admits (result env n (on_owned codec l req fpvc pod name b o)) ≡ true
        → HasBinding n b o
    unfolding on_owned
    on_owned-admits n b (ok m) h = (m, refl, on_binding_created-admits (suc n) _ h)
    on_owned-admits n b (err e) h = cc
    on_owned-admits n b panicked h = cc

    on_claim_created-admits :
        (n : ℕ) (r : Reply PersistentVolumeClaim)
        → admits (result env n (on_claim_created codec l req fpvc pod name r)) ≡ true
        → HasClaim n r
    unfolding on_claim_created
    on_claim_created-admits n (success pvc) h =
        (pvc, refl, on_owned-admits n (new_binding codec l req fpvc pod pvc name) _ h)
    on_claim_created-admits n (failure e) h = cc

  -- What was read for the pod, and what was created for it.
  pub record IsServed : Type 0 where
    pub pod : Pod
    pub fluent_pvc_name : String
    pub fpvc : FluentPvc
    pub reads : ReadsForPod codec l env req pod fluent_pvc_name fpvc
    pub created :
        HasClaim fpvc pod
          (fresh_name codec l env req pod fluent_pvc_name fpvc)
          3
          (env 2 (create_pvc (fresh_claim codec l env req pod fluent_pvc_name fpvc)))

  module _ (pod : Pod) where
    abbrev HasCreated : String → FluentPvc → Type 0
    HasCreated n fpvc =
        HasClaim fpvc pod (fresh_name codec l env req pod n fpvc) 3
          (env 2 (create_pvc (fresh_claim codec l env req pod n fpvc)))

    abbrev HasRead : String → Reply FluentPvc → Type 0
    HasRead n r = (fpvc : FluentPvc) × (r ≡ success fpvc) × HasCreated n fpvc

    abbrev HasLabel : Option String → Type 0
    HasLabel o = (n : String) × (o ≡ some n) × HasRead n (env 0 (get_fluent_pvc n))

    on_fluent_pvc-admits :
        (n : String) (r : Reply FluentPvc)
        → admits (result env 1 (on_fluent_pvc codec l req pod r)) ≡ true
        → HasRead n r
    unfolding on_fluent_pvc on_random
    on_fluent_pvc-admits n (success fpvc) h = (fpvc, refl, on_claim_created-admits fpvc pod _ 3 _ h)
    on_fluent_pvc-admits n (failure e) h = cc

    on_label-admits :
        (o : Option String) → admits (result env 0 (on_label codec l req pod o)) ≡ true → HasLabel o
    unfolding on_label
    on_label-admits none h = cc
    on_label-admits (some n) h = (n, refl, on_fluent_pvc-admits n _ h)

    on_containers-admits :
        (cs : List Container)
        → admits (result env 0 (on_containers codec l req pod cs)) ≡ true
        → (cs ≢ []) × HasLabel (label pod.meta.labels pod_label_fluent_pvc_name)
    unfolding on_containers
    on_containers-admits [] h = cc
    on_containers-admits (c ∷ cs) h = (λ e. cc, on_label-admits _ h)

  on_decoded-admits :
      (r : Reply Pod)
      → codec.decode_pod req.raw ≡ r
      → admits (result env 0 (on_decoded codec l req r)) ≡ true
      → IsServed
  unfolding on_decoded
  on_decoded-admits (failure e) decoded h = cc
  on_decoded-admits (success pod) decoded h =
      let (full, (n, labelled, (fpvc, read, created))) =
        on_containers-admits pod pod.spec.containers h in
      record {
        pod = pod;
        fluent_pvc_name = n;
        fpvc = fpvc;
        reads = record {
          decoded = decoded;
          has_containers = full;
          labelled = labelled;
          fluent_pvc_read = read;
        };
        created = created;
      }

  pub handle-admits : admits (result env 0 (handle codec l req)) ≡ true → IsServed
  unfolding handle
  handle-admits h = on_decoded-admits (codec.decode_pod req.raw) refl h
