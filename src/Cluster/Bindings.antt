-- ===== src/Cluster/Bindings.antt =====
-- The binding reconciler as a process, controllers/fluentpvcbinding_controller.go.
use fluent_pvc_operator.Lifecycle.Histories.{flags-status}
use fluent_pvc_operator.Lifecycle.Decisions.{decide-Follows}
use fluent_pvc_operator.Lifecycle.Flags.{flags, holds}
use fluent_pvc_operator.Controllers.Bindings.{
  fill_pod_uid, check_pod, on_pods, on_named_pod, fulfill_fluent_pvc_binding_pod,
  update_controller_fluent_pvc, with_claim, with_pod, on_fluent_pvc, on_binding, reconcile, filled,
  fulfill_fluent_pvc_binding_pvc, pod_has_pvc, on_claim, pod_has_fluent_pvc_label, decide,
}
use fluent_pvc_operator.Cluster.Duties.{
  KeptStatus, shown, Careful, Careful-if, IsCareful, rules-IsCareful, Careful-bind,
}
use mathlib.Core.List.{Memᴰ}
use fluent_pvc_operator.Prelude.{
  false, not, ◌||◌, ◌≡◌, refl, Option, none, some, List, [], ◌∷◌, ◌++◌, ◌==◌,
}
use fluent_pvc_operator.Kube.{
  Library, LibraryLaws, Pod, Reply, success, failure, Outcome, ok, err, PersistentVolumeClaim,
  ObjectMeta, ObjectKey, panicked,
}
use fluent_pvc_operator.Api.{
  FluentPvcBinding, set_pod, FluentPvc, set_fluent_pvc, is_condition_unknown, is_controlled_by,
}

-- The binding that a search for its pod returns is one that was read, with the status as it was.
abbrev pub Finds :
    FluentPvcBinding → List FluentPvcBinding → Outcome (FluentPvcBinding × Option Pod) → Type 0
Finds b seen (ok t) = Memᴰ t.0 seen × (t.0.status ≡ b.status)
Finds b seen (err e) = Unit
Finds b seen panicked = Unit

module _ (l : Library) (b : FluentPvcBinding) where
  filled-Finds :
      (seen : List FluentPvcBinding) (pod : Pod) (r : Reply FluentPvcBinding)
      → KeptStatus (set_pod b pod) r
      → Finds b (shown r ++ seen) (filled pod r)
  unfolding set_pod
  filled-Finds seen pod (success stored) h = (Memᴰ.head refl, h)
  filled-Finds seen pod (failure e) h = tt

  module _ (seen : List FluentPvcBinding) (read : Memᴰ b seen) where
    fill_pod_uid-Careful : (pod : Pod) → Careful l seen (Finds b) (fill_pod_uid b pod)
    unfolding fill_pod_uid
    fill_pod_uid-Careful pod =
        Careful-if l seen (Finds b) (not (pod_has_pvc b.spec.pvc.name pod.spec.volumes)) _ _
          (λ _. tt)
          (λ _.
            Careful-if l seen (Finds b) (not (pod_has_fluent_pvc_label b pod)) _ _ (λ _. tt)
              (λ _. (
                (b, read, unfold set_pod in ((refl, refl), refl)),
                λ r h. filled-Finds seen pod r h,
              )))

    check_pod-Careful : (o : Option Pod) → Careful l seen (Finds b) (check_pod b o)
    unfolding check_pod
    check_pod-Careful none = (read, refl)
    check_pod-Careful (some pod) =
        Careful-if l seen (Finds b) (b.spec.pod.uid == "" || b.spec.pod.name == "") _ _
          (λ _. fill_pod_uid-Careful pod) (λ _. (read, refl))

    on_pods-Careful : (r : Reply (List Pod)) → Careful l seen (Finds b) (on_pods b r)
    unfolding on_pods
    on_pods-Careful (failure e) = tt
    on_pods-Careful (success []) = check_pod-Careful none
    on_pods-Careful (success (pod ∷ [])) = check_pod-Careful (some pod)
    on_pods-Careful (success (pod ∷ pod' ∷ pods)) = tt

    on_named_pod-Careful : (r : Reply Pod) → Careful l seen (Finds b) (on_named_pod l b r)
    unfolding on_named_pod
    on_named_pod-Careful (success pod) = check_pod-Careful (some pod)
    on_named_pod-Careful (failure e) =
        Careful-if l seen (Finds b) (l.is_not_found e) _ _ (λ _. check_pod-Careful none) (λ _. tt)

    fulfilment-Careful : Careful l seen (Finds b) (fulfill_fluent_pvc_binding_pod l b)
    unfolding fulfill_fluent_pvc_binding_pod
    fulfilment-Careful =
        Careful-if l seen (Finds b) (b.spec.pod.name == "") _ _
          (λ _. (tt, λ r _. on_pods-Careful r)) (λ _. (tt, λ r _. on_named_pod-Careful r))

module _ (l : Library) (laws : LibraryLaws l) (b : FluentPvcBinding)
    (known : (flags l b).unknown ≡ false) where
  with_claim-IsCareful :
      (seen : List FluentPvcBinding) (c : FluentPvcBinding) (pod : Option Pod)
      (o : Outcome (Option PersistentVolumeClaim))
      → Memᴰ c seen
      → c.status ≡ b.status
      → IsCareful l seen (with_claim l c pod o)
  unfolding with_claim
  with_claim-IsCareful seen c pod (ok pvc) m h =
      rules-IsCareful l c seen (decide l c pod pvc) m
        (decide-Follows l laws c (rw (flags-status l b c h) known) pod pvc)
  with_claim-IsCareful seen c pod (err e) m h = tt
  with_claim-IsCareful seen c pod panicked m h = tt

  with_pod-IsCareful :
      (seen : List FluentPvcBinding) (o : Outcome (FluentPvcBinding × Option Pod))
      → Finds b seen o
      → IsCareful l seen (with_pod l o)
  unfolding with_pod fulfill_fluent_pvc_binding_pvc
  with_pod-IsCareful seen (ok t) h =
      (tt, λ r _. with_claim-IsCareful seen t.0 t.1 (on_claim l t.0 r) h.0 h.1)
  with_pod-IsCareful seen (err e) h = tt
  with_pod-IsCareful seen panicked h = tt

module _ (l : Library) (laws : LibraryLaws l) where
  update_controller-IsCareful :
      (seen : List FluentPvcBinding) (b : FluentPvcBinding) (fpvc : FluentPvc)
      (o : Outcome ObjectMeta)
      → Memᴰ b seen
      → l.set_controller_reference "FluentPVC" fpvc.meta b.meta ≡ o
      → IsCareful l seen (update_controller_fluent_pvc b fpvc o)
  unfolding update_controller_fluent_pvc set_fluent_pvc
  update_controller-IsCareful seen b fpvc (ok m) read h =
      ((b, read, (laws.version-set_controller "FluentPVC" fpvc.meta b.meta m h, refl)), λ r _. tt)
  update_controller-IsCareful seen b fpvc (err e) read h = tt
  update_controller-IsCareful seen b fpvc panicked read h = tt

  on_fluent_pvc-IsCareful :
      (seen : List FluentPvcBinding) (b : FluentPvcBinding)
      → Memᴰ b seen
      → (r : Reply FluentPvc) → IsCareful l seen (on_fluent_pvc l b r)
  unfolding on_fluent_pvc is_condition_unknown
  on_fluent_pvc-IsCareful seen b read (failure e) = tt
  on_fluent_pvc-IsCareful seen b read (success fpvc) =
      Careful-if l seen (λ _ _. Unit) (not (is_controlled_by l b fpvc)) _ _
        (λ _. update_controller-IsCareful seen b fpvc _ read refl)
        (λ _.
          Careful-if l seen (λ _ _. Unit) (is_condition_unknown l b) _ _ (λ _. tt)
            (λ known.
              Careful-bind l seen (Finds b) (λ _ _. Unit) (fulfill_fluent_pvc_binding_pod l b)
                (with_pod l) (fulfilment-Careful l b seen read)
                (with_pod-IsCareful l laws b (unfold flags holds in known))))

  on_binding-IsCareful : (r : Reply FluentPvcBinding) → IsCareful l (shown r ++ []) (on_binding l r)
  unfolding on_binding
  on_binding-IsCareful (failure e) = tt
  on_binding-IsCareful (success b) =
      (tt, λ r _. on_fluent_pvc-IsCareful (b ∷ []) b (Memᴰ.head refl) r)

  pub reconcile-IsCareful : (req : ObjectKey) → IsCareful l [] (reconcile l req)
  unfolding reconcile
  reconcile-IsCareful req = (tt, λ r _. on_binding-IsCareful r)
