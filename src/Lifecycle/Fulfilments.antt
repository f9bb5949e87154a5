-- ===== src/Lifecycle/Fulfilments.antt =====
-- The status of a binding around the search for its pod,
-- controllers/fluentpvcbinding_controller.go.
use fluent_pvc_operator.Lifecycle.Rules.{Saves, Saves-if, Rules}
use fluent_pvc_operator.Controllers.Bindings.{
  fill_pod_uid, check_pod, on_pods, on_named_pod, fulfill_fluent_pvc_binding_pod, filled,
  pod_has_pvc, pod_has_fluent_pvc_label,
}
use fluent_pvc_operator.Effect.{Environment, update_binding, Program, result}
use fluent_pvc_operator.Prelude.{
  ℕ, suc, Bool, true, false, not, ◌||◌, ◌≡◌, refl, Option, none, some, List, [], ◌∷◌, if◌then◌else◌,
  ◌==◌,
}
use fluent_pvc_operator.Kube.{Library, Pod, Reply, success, failure, Outcome, ok, err, panicked}
use fluent_pvc_operator.Api.{FluentPvcBinding, set_pod}

-- `Update` on the main resource leaves the status alone: it is a subresource of its own.
abbrev pub KeepsStatus : Environment → Type 0
KeepsStatus env =
    (n : ℕ) (b stored : FluentPvcBinding)
    → env n (update_binding b) ≡ success stored
    → stored.status ≡ b.status

-- What a search for the pod returns keeps the status of the binding.
abbrev pub SameStatus : FluentPvcBinding → Outcome (FluentPvcBinding × Option Pod) → Type 0
SameStatus b (ok t) = t.0.status ≡ b.status
SameStatus b (err e) = Unit
SameStatus b panicked = Unit

module _ (env : Environment) (keeps : KeepsStatus env) (b : FluentPvcBinding) where
  filled-SameStatus :
      (n : ℕ) (pod : Pod) (r : Reply FluentPvcBinding)
      → env n (update_binding (set_pod b pod)) ≡ r
      → SameStatus b (filled pod r)
  unfolding set_pod
  filled-SameStatus n pod (success stored) h = keeps n (set_pod b pod) stored h
  filled-SameStatus n pod (failure e) h = tt

  if-SameStatus :
      (n : ℕ) (t : Bool) (p q : Program (Outcome (FluentPvcBinding × Option Pod)))
      → SameStatus b (result env n p)
      → SameStatus b (result env n q)
      → SameStatus b (result env n (if t then p else q))
  if-SameStatus n true p q hp hq = hp
  if-SameStatus n false p q hp hq = hq

  fill_pod_uid-SameStatus : (n : ℕ) (pod : Pod) → SameStatus b (result env n (fill_pod_uid b pod))
  unfolding fill_pod_uid
  fill_pod_uid-SameStatus n pod =
      if-SameStatus n (not (pod_has_pvc b.spec.pvc.name pod.spec.volumes)) _ _ tt (
        if-SameStatus n (not (pod_has_fluent_pvc_label b pod)) _ _ tt
          (filled-SameStatus n pod _ refl))

  check_pod-SameStatus : (n : ℕ) (o : Option Pod) → SameStatus b (result env n (check_pod b o))
  unfolding check_pod
  check_pod-SameStatus n none = refl
  check_pod-SameStatus n (some pod) =
      if-SameStatus n (b.spec.pod.uid == "" || b.spec.pod.name == "") _ _
        (fill_pod_uid-SameStatus n pod) refl

  on_pods-SameStatus : (n : ℕ) (r : Reply (List Pod)) → SameStatus b (result env n (on_pods b r))
  unfolding on_pods
  on_pods-SameStatus n (failure e) = tt
  on_pods-SameStatus n (success []) = check_pod-SameStatus n none
  on_pods-SameStatus n (success (pod ∷ [])) = check_pod-SameStatus n (some pod)
  on_pods-SameStatus n (success (pod ∷ pod' ∷ pods)) = tt

  module _ (l : Library) where
    on_named_pod-SameStatus :
        (n : ℕ) (r : Reply Pod) → SameStatus b (result env n (on_named_pod l b r))
    unfolding on_named_pod
    on_named_pod-SameStatus n (success pod) = check_pod-SameStatus n (some pod)
    on_named_pod-SameStatus n (failure e) =
        if-SameStatus n (l.is_not_found e) _ _ (check_pod-SameStatus n none) tt

    pub fulfilment-SameStatus :
        (n : ℕ) → SameStatus b (result env n (fulfill_fluent_pvc_binding_pod l b))
    unfolding fulfill_fluent_pvc_binding_pod
    fulfilment-SameStatus n =
        if-SameStatus n (b.spec.pod.name == "") _ _ (on_pods-SameStatus (suc n) _)
          (on_named_pod-SameStatus (suc n) _)

module _ (l : Library) (F : Rules) (b : FluentPvcBinding)
    (fills : (pod : Pod) → F.object (set_pod b pod)) where
  fill_pod_uid-Saves : (pod : Pod) → Saves F (fill_pod_uid b pod)
  unfolding fill_pod_uid
  fill_pod_uid-Saves pod =
      Saves-if F (not (pod_has_pvc b.spec.pvc.name pod.spec.volumes)) _ _ (λ _. tt)
        (λ _.
          Saves-if F (not (pod_has_fluent_pvc_label b pod)) _ _ (λ _. tt)
            (λ _. (fills pod, λ r. tt)))

  check_pod-Saves : (o : Option Pod) → Saves F (check_pod b o)
  unfolding check_pod
  check_pod-Saves none = tt
  check_pod-Saves (some pod) =
      Saves-if F (b.spec.pod.uid == "" || b.spec.pod.name == "") _ _ (λ _. fill_pod_uid-Saves pod)
        (λ _. tt)

  on_pods-Saves : (r : Reply (List Pod)) → Saves F (on_pods b r)
  unfolding on_pods
  on_pods-Saves (failure e) = tt
  on_pods-Saves (success []) = check_pod-Saves none
  on_pods-Saves (success (pod ∷ [])) = check_pod-Saves (some pod)
  on_pods-Saves (success (pod ∷ pod' ∷ pods)) = tt

  on_named_pod-Saves : (r : Reply Pod) → Saves F (on_named_pod l b r)
  unfolding on_named_pod
  on_named_pod-Saves (success pod) = check_pod-Saves (some pod)
  on_named_pod-Saves (failure e) =
      Saves-if F (l.is_not_found e) _ _ (λ _. check_pod-Saves none) (λ _. tt)

  pub fulfilment-Saves : Saves F (fulfill_fluent_pvc_binding_pod l b)
  unfolding fulfill_fluent_pvc_binding_pod
  fulfilment-Saves =
      Saves-if F (b.spec.pod.name == "") _ _ (λ _. (tt, on_pods-Saves))
        (λ _. (tt, on_named_pod-Saves))
