-- ===== src/Cluster/Admissions.antt =====
-- The admission handlers as processes, webhooks/pod_webhook.go and webhooks/fluentpvc_webhook.go.
use fluent_pvc_operator.Cluster.Contracts.{Contract, Keeps}
use fluent_pvc_operator.Effect.{
  Call, Program, get_fluent_pvc, random_count, create_pvc, create_binding, update_binding_status,
}
use fluent_pvc_operator.Controllers.Pods.{label}
use mathlib.Core.List.{Memᴰ}
use fluent_pvc_operator.Cluster.Others.{IsQuiet}
use fluent_pvc_operator.Lifecycle.Flags.{flags, holds}
use fluent_pvc_operator.Webhooks.PodMutator.{
  on_binding_created, on_owned, on_claim_created, on_random, on_containers, claim_name, new_binding,
}
use fluent_pvc_operator.Cluster.Duties.{no_writes, IsCareful, Owes, duties}
use fluent_pvc_operator.Webhooks.FluentPvcValidator.{
  dry_runs, check_storage_class, check_access_modes,
}
use fluent_pvc_operator.Webhooks.Admission.{Codec, Request}
use fluent_pvc_operator.Lifecycle.Rules.{Saves-if}
use fluent_pvc_operator.Api.{
  FluentPvc, FluentPvcBinding, set_phase_pending, pod_label_fluent_pvc_name,
}
use fluent_pvc_operator.Prelude.{refl, inr, Option, none, some, List, [], ◌∷◌, ◌==◌, not, String}
use fluent_pvc_operator.Kube.{
  Library, Reply, success, failure, Outcome, ok, err, panicked, Pod, ObjectMeta,
  PersistentVolumeClaim, Container,
}
use fluent_pvc_operator.Webhooks.PodMutator
use fluent_pvc_operator.Webhooks.FluentPvcValidator

module _ (codec : Codec) (l : Library) where
  dry_runs-IsQuiet : (fpvc : FluentPvc) → IsQuiet l (dry_runs fpvc)
  unfolding dry_runs
  dry_runs-IsQuiet fpvc = (
    tt,
    elim [
      | failure e ↦ tt
      | success _ ↦
          (tt, elim [ failure e ↦ tt | success _ ↦ (tt, elim [ failure e ↦ tt | success _ ↦ tt ]) ])
    ],
  )

  check_storage_class-IsQuiet :
      (fpvc : FluentPvc) (o : Option String) → IsQuiet l (check_storage_class fpvc o)
  unfolding check_storage_class
  check_storage_class-IsQuiet fpvc none = tt
  check_storage_class-IsQuiet fpvc (some name) =
      (tt, elim [ failure e ↦ tt | success _ ↦ dry_runs-IsQuiet fpvc ])

  check_access_modes-IsQuiet :
      (fpvc : FluentPvc) (ms : List String) → IsQuiet l (check_access_modes fpvc ms)
  unfolding check_access_modes
  check_access_modes-IsQuiet fpvc [] =
      check_storage_class-IsQuiet fpvc fpvc.spec.pvc_spec_template.storage_class_name
  check_access_modes-IsQuiet fpvc (m ∷ ms) =
      Saves-if (no_writes l) (not (m == "ReadWriteOnce")) _ _ (λ _. tt)
        (λ _. check_access_modes-IsQuiet fpvc ms)

  validate-IsQuiet : (r : Reply FluentPvc) → IsQuiet l (FluentPvcValidator.on_decoded r)
  unfolding FluentPvcValidator.on_decoded
  validate-IsQuiet (success fpvc) =
      check_access_modes-IsQuiet fpvc fpvc.spec.pvc_spec_template.access_modes
  validate-IsQuiet (failure e) = tt

  pub handle-IsQuiet : (req : Request) → IsQuiet l (FluentPvcValidator.handle codec req)
  unfolding FluentPvcValidator.handle
  handle-IsQuiet req = validate-IsQuiet (codec.decode_fluent_pvc req.raw)

-- A call by which the webhook asks or creates, apart from the phase of the binding.
abbrev pub IsAdmission : Call → Type 0
IsAdmission (get_fluent_pvc n) = Unit
IsAdmission random_count = Unit
IsAdmission (create_pvc p) = Unit
IsAdmission (create_binding b) = Unit
IsAdmission _ = ⊥

-- Under any contract by which the phase of the stored binding may be stored, the rest being free.
module _ (codec : Codec) (l : Library) (C : Contract)
    (free : (k : C.Knowledge) (c : Call) → IsAdmission c → C.owed k c)
    (pays : (k : C.Knowledge) (d b : FluentPvcBinding)
      → C.owed
          (C.learn k (create_binding d) (success b))
          (update_binding_status (set_phase_pending b))) where
  abbrev Fair : {A : Type 0} → C.Knowledge → Program A → Type 0
  Fair k m = Keeps C k (λ _ _. Unit) m

  module _ (req : Request) (fpvc : FluentPvc) (pod : Pod) (name : String) where
    on_binding_created-Fair :
        (k : C.Knowledge) (d : FluentPvcBinding) (r : Reply FluentPvcBinding)
        → Fair (C.learn k (create_binding d) r) (on_binding_created codec l req fpvc pod name r)
    unfolding on_binding_created
    on_binding_created-Fair k d (success b) = (pays k d b, λ r _. tt)
    on_binding_created-Fair k d (failure e) = tt

    on_owned-Fair :
        (k : C.Knowledge) (b : FluentPvcBinding) (o : Outcome ObjectMeta)
        → Fair k (on_owned codec l req fpvc pod name b o)
    unfolding on_owned
    on_owned-Fair k b (ok m) = (free k _ tt, λ r _. on_binding_created-Fair k _ r)
    on_owned-Fair k b (err e) = tt
    on_owned-Fair k b panicked = tt

    on_claim_created-Fair :
        (k : C.Knowledge) (r : Reply PersistentVolumeClaim)
        → Fair k (on_claim_created codec l req fpvc pod name r)
    unfolding on_claim_created
    on_claim_created-Fair k (success pvc) =
        let b = new_binding codec l req fpvc pod pvc name in
        on_owned-Fair k b (l.set_controller_reference "FluentPVC" fpvc.meta b.meta)
    on_claim_created-Fair k (failure e) = tt

  module _ (req : Request) (pod : Pod) where
    on_chosen-Fair :
        (k : C.Knowledge) (r : Reply FluentPvc)
        → Fair k (PodMutator.on_fluent_pvc codec l req pod r)
    unfolding PodMutator.on_fluent_pvc on_random
    on_chosen-Fair k (success fpvc) = (
      free k random_count tt,
      λ count _. (
        free _ _ tt,
        λ r _. on_claim_created-Fair req fpvc pod (claim_name codec fpvc pod count) _ r,
      ),
    )
    on_chosen-Fair k (failure e) = tt

    on_labelled-Fair :
        (k : C.Knowledge) (o : Option String) → Fair k (PodMutator.on_label codec l req pod o)
    unfolding PodMutator.on_label
    on_labelled-Fair k none = tt
    on_labelled-Fair k (some n) = (free k (get_fluent_pvc n) tt, λ r _. on_chosen-Fair _ r)

    on_containers-Fair :
        (k : C.Knowledge) (cs : List Container) → Fair k (on_containers codec l req pod cs)
    unfolding on_containers
    on_containers-Fair k [] = tt
    on_containers-Fair k (c ∷ cs) =
        on_labelled-Fair k (label pod.meta.labels pod_label_fluent_pvc_name)

  mutate_decoded-Fair :
      (k : C.Knowledge) (req : Request) (r : Reply Pod)
      → Fair k (PodMutator.on_decoded codec l req r)
  unfolding PodMutator.on_decoded
  mutate_decoded-Fair k req (success pod) = on_containers-Fair req pod k pod.spec.containers
  mutate_decoded-Fair k req (failure e) = tt

  pub mutate-Keeps :
      (k : C.Knowledge) (req : Request) → Keeps C k (λ _ _. Unit) (PodMutator.handle codec l req)
  unfolding PodMutator.handle
  mutate-Keeps k req = mutate_decoded-Fair k req (codec.decode_pod req.raw)

IsAdmission-Owes : (l : Library) (k : List FluentPvcBinding) (c : Call) → IsAdmission c → Owes l k c
IsAdmission-Owes l k (get_fluent_pvc n) h = tt
IsAdmission-Owes l k random_count h = tt
IsAdmission-Owes l k (create_pvc p) h = tt
IsAdmission-Owes l k (create_binding b) h = tt
IsAdmission-Owes l k _ h = absurd h

pub mutate-IsCareful :
    (codec : Codec) (l : Library) (req : Request) → IsCareful l [] (PodMutator.handle codec l req)
unfolding set_phase_pending flags holds
mutate-IsCareful codec l req =
    mutate-Keeps codec l (duties l) (IsAdmission-Owes l)
      (λ k d b. (b, Memᴰ.head refl, ((refl, refl), inr refl))) [] req
