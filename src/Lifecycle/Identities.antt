-- ===== src/Lifecycle/Identities.antt =====
-- The pod and the claim that the reconciler finds for a binding,
-- controllers/fluentpvcbinding_controller.go.
use fluent_pvc_operator.Prelude.{
  ℕ, suc, true, ◌≡◌, ◌==◌, ◌||◌, ◌⊎◌, Option, none, some, List, [], ◌∷◌, arith, Bool-cases, inl,
  inr,
}
use fluent_pvc_operator.Kube.{Library, Pod, Reply, success, failure, ok}
use fluent_pvc_operator.Api.{FluentPvcBinding, set_pod}
use fluent_pvc_operator.Effect.{Environment, result, update_binding}
use fluent_pvc_operator.Controllers.Bindings.{
  fulfill_fluent_pvc_binding_pod, check_pod, fill_pod_uid, on_pods, on_named_pod, pod_has_pvc,
  pod_has_fluent_pvc_label,
}

-- The pod that the binding names, or, while the binding names none, a pod that mounts the claim and
-- has the label of the FluentPVC, and that the server has stored in the binding by call number n.
pub record IsAdopted (env : Environment) (n : ℕ) (b stored : FluentPvcBinding) (pod : Pod)
    : Type 0 where
  pub unnamed : (b.spec.pod.uid == "" || b.spec.pod.name == "") ≡ true
  pub has_claim : pod_has_pvc b.spec.pvc.name pod.spec.volumes ≡ true
  pub has_label : pod_has_fluent_pvc_label b pod ≡ true
  pub pod_stored : env n (update_binding (set_pod b pod)) ≡ success stored

abbrev pub IsFound : Environment → ℕ → FluentPvcBinding → FluentPvcBinding → Pod → Type 0
IsFound env n b stored pod =
    ((stored ≡ b) × ((pod.meta.uid == b.spec.pod.uid) ≡ true)) ⊎ IsAdopted env n b stored pod

module _ (env : Environment) (b stored : FluentPvcBinding) (pod : Pod) where
  fill_pod_uid-IsAdopted :
      (n : ℕ) (p : Pod)
      → (b.spec.pod.uid == "" || b.spec.pod.name == "") ≡ true
      → result env n (fill_pod_uid b p) ≡ ok (stored, some pod)
      → IsAdopted env n b stored pod
  unfolding fill_pod_uid
  fill_pod_uid-IsAdopted n p u h = ground arith

  check_pod-IsFound :
      (n : ℕ) (o : Option Pod)
      → result env n (check_pod b o) ≡ ok (stored, some pod)
      → IsFound env n b stored pod
  unfolding check_pod
  check_pod-IsFound n none h = ground arith
  check_pod-IsFound n (some p) h = ground (arith, fill_pod_uid-IsAdopted n p)

  on_pods-IsFound :
      (n : ℕ) (r : Reply (List Pod))
      → result env n (on_pods b r) ≡ ok (stored, some pod)
      → IsFound env n b stored pod
  unfolding on_pods
  on_pods-IsFound n (failure e) h = ground arith
  on_pods-IsFound n (success []) h = check_pod-IsFound n none h
  on_pods-IsFound n (success (p ∷ [])) h = check_pod-IsFound n (some p) h
  on_pods-IsFound n (success (p ∷ q ∷ ps)) h = ground arith

  on_named_pod-IsFound :
      (l : Library) (n : ℕ) (r : Reply Pod)
      → result env n (on_named_pod l b r) ≡ ok (stored, some pod)
      → IsFound env n b stored pod
  unfolding on_named_pod
  on_named_pod-IsFound l n (success p) h = check_pod-IsFound n (some p) h
  on_named_pod-IsFound l n (failure e) h = ground (arith, check_pod-IsFound n none)

  -- Whatever the server answers: if a search for the pod that begins at call n finds one, the
  -- binding is unchanged and the pod has the UID that the binding names, or the binding named no
  -- pod, the pod has the claim as a volume and the label of the FluentPVC, and the next call stored
  -- the pod's identity in the binding.
  pub fulfill_fluent_pvc_binding_pod-IsFound :
      (l : Library) (n : ℕ)
      → result env n (fulfill_fluent_pvc_binding_pod l b) ≡ ok (stored, some pod)
      → IsFound env (suc n) b stored pod
  unfolding fulfill_fluent_pvc_binding_pod
  fulfill_fluent_pvc_binding_pod-IsFound l n h = elim (Bool-cases (b.spec.pod.name == "")) [
    | inl e ↦ on_pods-IsFound (suc n) _ (rw e at h)
    | inr e ↦ on_named_pod-IsFound l (suc n) _ (rw e at h)
  ]
