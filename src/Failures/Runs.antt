-- ===== src/Failures/Runs.antt =====
-- The errors of the server in a whole run of controllers/fluentpvcbinding_controller.go, and in the
-- runs of all reconcilers.
use fluent_pvc_operator.Failures.{
  Halts, Halts-if, Halts-bind, answered, Answered-last, Fails, IsError,
}
use fluent_pvc_operator.Failures.Bindings.{decide-Halts}
use fluent_pvc_operator.Controllers.Bindings.{
  fill_pod_uid, filled, check_pod, on_pods, on_named_pod, fulfill_fluent_pvc_binding_pod, on_claim,
  fulfill_fluent_pvc_binding_pvc, update_controller_fluent_pvc, with_claim, with_pod, on_fluent_pvc,
  on_binding, reconcile, saved, pod_has_pvc, pod_has_fluent_pvc_label,
}
use fluent_pvc_operator.Prelude.{not, ◌||◌, ◌==◌, Option, some, none, List, [], ◌∷◌}
use fluent_pvc_operator.Kube.{
  Library, ObjectKey, ObjectMeta, Pod, PersistentVolumeClaim, Outcome, ok, err, panicked, success,
}
use fluent_pvc_operator.Api.{FluentPvc, FluentPvcBinding, is_controlled_by, is_condition_unknown}

module _ (l : Library) where
  module _ (b : FluentPvcBinding) where
    check_pod-Halts : (o : Option Pod) → Halts l (check_pod b o)
    unfolding check_pod fill_pod_uid
    check_pod-Halts none = tt
    check_pod-Halts (some pod) =
        Halts-if l (b.spec.pod.uid == "" || b.spec.pod.name == "") _ _
          (Halts-if l (not (pod_has_pvc b.spec.pvc.name pod.spec.volumes)) _ _ tt (
            Halts-if l (not (pod_has_fluent_pvc_label b pod)) _ _ tt
              (Answered-last l (filled pod) (λ e h. tt))))
          tt

    on_pods-Halts : (pods : List Pod) → Halts l (on_pods b (success pods))
    unfolding on_pods
    on_pods-Halts [] = check_pod-Halts none
    on_pods-Halts (pod ∷ []) = check_pod-Halts (some pod)
    on_pods-Halts (pod ∷ pod' ∷ pods) = tt

    fulfill_pod-Halts : Halts l (fulfill_fluent_pvc_binding_pod l b)
    unfolding fulfill_fluent_pvc_binding_pod on_pods on_named_pod
    fulfill_pod-Halts =
        Halts-if l (b.spec.pod.name == "") _ _
          (answered l (on_pods b) on_pods-Halts (λ e. tt) (λ e h. tt))
          (answered l (on_named_pod l b) (λ pod. check_pod-Halts (some pod))
            (λ e. Halts-if l (l.is_not_found e) _ _ (check_pod-Halts none) tt) (λ e h. rw h.0 tt))

    with_claim-Halts :
        (pod : Option Pod) (o : Outcome (Option PersistentVolumeClaim))
        → Halts l (with_claim l b pod o)
    unfolding with_claim
    with_claim-Halts pod (ok pvc) = decide-Halts l b pod pvc
    with_claim-Halts pod (err e) = tt
    with_claim-Halts pod panicked = tt

    with_claim-Fails :
        (pod : Option Pod) (o : Outcome (Option PersistentVolumeClaim))
        → IsError l o
        → Fails (with_claim l b pod o)
    unfolding with_claim
    with_claim-Fails pod (ok pvc) h = absurd h
    with_claim-Fails pod (err e) h = tt
    with_claim-Fails pod panicked h = absurd h

    fulfill_pvc-Halts : Halts l (fulfill_fluent_pvc_binding_pvc l b)
    unfolding fulfill_fluent_pvc_binding_pvc on_claim
    fulfill_pvc-Halts = Answered-last l (on_claim l b) (λ e h. rw h.0 tt)

    update_controller-Halts :
        (fpvc : FluentPvc) (o : Outcome ObjectMeta)
        → Halts l (update_controller_fluent_pvc b fpvc o)
    unfolding update_controller_fluent_pvc
    update_controller-Halts fpvc (ok m) = Answered-last l saved (λ e h. tt)
    update_controller-Halts fpvc (err e) = tt
    update_controller-Halts fpvc panicked = tt

  with_pod-Halts : (o : Outcome (FluentPvcBinding × Option Pod)) → Halts l (with_pod l o)
  unfolding with_pod
  with_pod-Halts (ok t) =
      Halts-bind l (fulfill_fluent_pvc_binding_pvc l t.0) (with_claim l t.0 t.1)
        (fulfill_pvc-Halts t.0) (with_claim-Halts t.0 t.1) (with_claim-Fails t.0 t.1)
  with_pod-Halts (err e) = tt
  with_pod-Halts panicked = tt

  with_pod-Fails :
      (o : Outcome (FluentPvcBinding × Option Pod)) → IsError l o → Fails (with_pod l o)
  unfolding with_pod
  with_pod-Fails (ok t) h = absurd h
  with_pod-Fails (err e) h = tt
  with_pod-Fails panicked h = absurd h

  on_fluent_pvc-Halts :
      (b : FluentPvcBinding) (fpvc : FluentPvc) → Halts l (on_fluent_pvc l b (success fpvc))
  unfolding on_fluent_pvc
  on_fluent_pvc-Halts b fpvc =
      Halts-if l (not (is_controlled_by l b fpvc)) _ _
        (update_controller-Halts b fpvc (l.set_controller_reference "FluentPVC" fpvc.meta b.meta))
        (Halts-if l (is_condition_unknown l b) _ _ tt (
          Halts-bind l (fulfill_fluent_pvc_binding_pod l b) (with_pod l) (fulfill_pod-Halts b)
            with_pod-Halts with_pod-Fails))

  pub reconcile_binding-Halts : (req : ObjectKey) → Halts l (reconcile l req)
  unfolding reconcile on_binding on_fluent_pvc
  reconcile_binding-Halts req =
      answered l (on_binding l)
        (λ b. answered l (on_fluent_pvc l b) (on_fluent_pvc-Halts b) (λ e. tt) (λ e h. tt))
        (λ e. tt) (λ e h. rw h.0 tt)
