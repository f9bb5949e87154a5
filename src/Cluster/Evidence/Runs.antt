-- ===== src/Cluster/Evidence/Runs.antt =====
-- Runs of the binding reconciler and of the mutating webhook rest what they store on what they have
-- read, controllers/fluentpvcbinding_controller.go and webhooks/pod_webhook.go.
use fluent_pvc_operator.Cluster.Contracts.{Keeps-if, Keeps-bind}
use fluent_pvc_operator.Cluster.Evidence.{Insight, Honest, IsHonest, evidence}
use fluent_pvc_operator.Cluster.Evidence.Decision.{decide-IsHonest}
use fluent_pvc_operator.Cluster.Duties.{shown}
use fluent_pvc_operator.Controllers.Bindings.{
  fill_pod_uid, check_pod, on_pods, on_named_pod, fulfill_fluent_pvc_binding_pod,
  update_controller_fluent_pvc, with_claim, with_pod, on_fluent_pvc, on_binding, reconcile, filled,
  fulfill_fluent_pvc_binding_pvc, pod_has_pvc, on_claim, pod_has_fluent_pvc_label,
}
use mathlib.Core.List.{Memᴰ}
use fluent_pvc_operator.Prelude.{not, ◌||◌, refl, Option, none, some, List, [], ◌∷◌, ◌++◌, ◌==◌}
use fluent_pvc_operator.Kube.{
  Library, LibraryLaws, Pod, Reply, success, failure, Outcome, ok, err, PersistentVolumeClaim,
  ObjectMeta, ObjectKey, panicked,
}
use fluent_pvc_operator.Api.{FluentPvcBinding, FluentPvc, is_condition_unknown, is_controlled_by}

-- The binding that a search for its pod returns is one that was read.
abbrev pub Returns : Insight → Outcome (FluentPvcBinding × Option Pod) → Type 0
Returns k (ok t) = Memᴰ t.0 k.bindings
Returns k (err e) = Unit
Returns k panicked = Unit

module _ (l : Library) (b : FluentPvcBinding) where
  filled-Returns :
      (k : Insight) (pod : Pod) (r : Reply FluentPvcBinding)
      → Returns (record k { bindings = shown r ++ k.bindings }) (filled pod r)
  filled-Returns k pod (success stored) = Memᴰ.head refl
  filled-Returns k pod (failure e) = tt

  module _ (k : Insight) (read : Memᴰ b k.bindings) where
    fill_pod_uid-Honest : (pod : Pod) → Honest l k Returns (fill_pod_uid b pod)
    unfolding fill_pod_uid
    fill_pod_uid-Honest pod =
        Keeps-if (evidence l) k Returns (not (pod_has_pvc b.spec.pvc.name pod.spec.volumes)) _ _
          (λ _. tt)
          (λ _.
            Keeps-if (evidence l) k Returns (not (pod_has_fluent_pvc_label b pod)) _ _ (λ _. tt)
              (λ _. (tt, λ r _. filled-Returns k pod r)))

    check_pod-Honest : (o : Option Pod) → Honest l k Returns (check_pod b o)
    unfolding check_pod
    check_pod-Honest none = read
    check_pod-Honest (some pod) =
        Keeps-if (evidence l) k Returns (b.spec.pod.uid == "" || b.spec.pod.name == "") _ _
          (λ _. fill_pod_uid-Honest pod) (λ _. read)

    on_pods-Honest : (r : Reply (List Pod)) → Honest l k Returns (on_pods b r)
    unfolding on_pods
    on_pods-Honest (failure e) = tt
    on_pods-Honest (success []) = check_pod-Honest none
    on_pods-Honest (success (pod ∷ [])) = check_pod-Honest (some pod)
    on_pods-Honest (success (pod ∷ pod' ∷ pods)) = tt

    on_named_pod-Honest : (r : Reply Pod) → Honest l k Returns (on_named_pod l b r)
    unfolding on_named_pod
    on_named_pod-Honest (success pod) = check_pod-Honest (some pod)
    on_named_pod-Honest (failure e) =
        Keeps-if (evidence l) k Returns (l.is_not_found e) _ _ (λ _. check_pod-Honest none)
          (λ _. tt)

    fulfilment-Honest : Honest l k Returns (fulfill_fluent_pvc_binding_pod l b)
    unfolding fulfill_fluent_pvc_binding_pod
    fulfilment-Honest =
        Keeps-if (evidence l) k Returns (b.spec.pod.name == "") _ _
          (λ _. (tt, λ r _. on_pods-Honest r)) (λ _. (tt, λ r _. on_named_pod-Honest r))

module _ (l : Library) (laws : LibraryLaws l) where
  with_claim-IsHonest :
      (k : Insight) (c : FluentPvcBinding) (pod : Option Pod)
      (o : Outcome (Option PersistentVolumeClaim))
      → Memᴰ c k.bindings
      → IsHonest l k (with_claim l c pod o)
  unfolding with_claim
  with_claim-IsHonest k c pod (ok pvc) m = decide-IsHonest l laws c k m pod pvc
  with_claim-IsHonest k c pod (err e) m = tt
  with_claim-IsHonest k c pod panicked m = tt

  with_pod-IsHonest :
      (k : Insight) (o : Outcome (FluentPvcBinding × Option Pod))
      → Returns k o
      → IsHonest l k (with_pod l o)
  unfolding with_pod fulfill_fluent_pvc_binding_pvc
  with_pod-IsHonest k (ok t) h = (tt, λ r _. with_claim-IsHonest k t.0 t.1 (on_claim l t.0 r) h)
  with_pod-IsHonest k (err e) h = tt
  with_pod-IsHonest k panicked h = tt

  update_controller-IsHonest :
      (k : Insight) (b : FluentPvcBinding) (fpvc : FluentPvc) (o : Outcome ObjectMeta)
      → IsHonest l k (update_controller_fluent_pvc b fpvc o)
  unfolding update_controller_fluent_pvc
  update_controller-IsHonest k b fpvc (ok m) = (tt, λ r _. tt)
  update_controller-IsHonest k b fpvc (err e) = tt
  update_controller-IsHonest k b fpvc panicked = tt

  on_fluent_pvc-IsHonest :
      (k : Insight) (b : FluentPvcBinding)
      → Memᴰ b k.bindings
      → (r : Reply FluentPvc) → IsHonest l k (on_fluent_pvc l b r)
  unfolding on_fluent_pvc
  on_fluent_pvc-IsHonest k b read (failure e) = tt
  on_fluent_pvc-IsHonest k b read (success fpvc) =
      Keeps-if (evidence l) k (λ _ _. Unit) (not (is_controlled_by l b fpvc)) _ _
        (λ _. update_controller-IsHonest k b fpvc _)
        (λ _.
          Keeps-if (evidence l) k (λ _ _. Unit) (is_condition_unknown l b) _ _ (λ _. tt)
            (λ known.
              Keeps-bind (evidence l) k Returns (λ _ _. Unit) (fulfill_fluent_pvc_binding_pod l b)
                (with_pod l) (fulfilment-Honest l b k read) with_pod-IsHonest))

  on_binding-IsHonest :
      (k : Insight) (r : Reply FluentPvcBinding)
      → IsHonest l (record k { bindings = shown r ++ k.bindings }) (on_binding l r)
  unfolding on_binding
  on_binding-IsHonest k (failure e) = tt
  on_binding-IsHonest k (success b) = (
    tt,
    λ r _. on_fluent_pvc-IsHonest (record k { bindings = b ∷ k.bindings }) b (Memᴰ.head refl) r,
  )

  pub reconcile-IsHonest : (k : Insight) (req : ObjectKey) → IsHonest l k (reconcile l req)
  unfolding reconcile
  reconcile-IsHonest k req = (tt, λ r _. on_binding-IsHonest k r)
