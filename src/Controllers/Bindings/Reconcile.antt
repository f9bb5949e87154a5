-- ===== src/Controllers/Bindings/Reconcile.antt =====
-- `Reconcile` of bindings up to the search for the pod and the claim.
use fluent_pvc_operator.Prelude.{not, Option, if◌then◌else◌}
use fluent_pvc_operator.Kube.{
  Library, ObjectKey, ObjectMeta, Pod, PersistentVolumeClaim, Reply, success, failure, api, wrap,
  Outcome, ok, err, panicked,
}
use fluent_pvc_operator.Api.{
  FluentPvc, FluentPvcBinding, set_fluent_pvc, is_controlled_by, is_condition_unknown,
}
use fluent_pvc_operator.Effect.{
  Program, ret, call, ◌>>=◌, and_then, get_binding, get_fluent_pvc, update_binding,
}
use fluent_pvc_operator.Controllers.Utils.{Result, no_requeue, unexpected}
use fluent_pvc_operator.Controllers.Bindings.Updates.{saved, unexpected_twice}
use fluent_pvc_operator.Controllers.Bindings.Fulfilment.{
  fulfill_fluent_pvc_binding_pod, fulfill_fluent_pvc_binding_pvc,
}
use fluent_pvc_operator.Controllers.Bindings.Decision.{decide}

-- The caller's wrapping of a helper's error.
abbrev pub wrapped : {A : Type 0} → Outcome A → Outcome A
wrapped (ok a) = ok a
wrapped (err e) = err (wrap unexpected e)
wrapped panicked = panicked

-- `updateControllerFluentPVC` with the result of `ctrl.SetControllerReference`
unfoldable pub update_controller_fluent_pvc :
    FluentPvcBinding → FluentPvc → Outcome ObjectMeta → Program (Outcome Result)
unfolding set_fluent_pvc
update_controller_fluent_pvc b fpvc (ok m) =
    call (update_binding (set_fluent_pvc (record b { meta = m }) fpvc)) (λ r. ret (saved r))
update_controller_fluent_pvc b fpvc (err e) = ret (err (unexpected_twice e))
update_controller_fluent_pvc b fpvc panicked = ret panicked

module _ (l : Library) where
  unfoldable pub with_claim :
      FluentPvcBinding
      → Option Pod
      → Outcome (Option PersistentVolumeClaim)
      → Program (Outcome Result)
  unfolding decide
  with_claim b pod o = and_then (wrapped o) (decide l b pod)

  unfoldable pub with_pod : Outcome (FluentPvcBinding × Option Pod) → Program (Outcome Result)
  unfolding with_claim fulfill_fluent_pvc_binding_pvc
  with_pod o =
      and_then (wrapped o) (λ t. fulfill_fluent_pvc_binding_pvc l t.0 >>= with_claim t.0 t.1)

  unfoldable pub on_fluent_pvc : FluentPvcBinding → Reply FluentPvc → Program (Outcome Result)
  unfolding update_controller_fluent_pvc with_pod is_controlled_by is_condition_unknown
      fulfill_fluent_pvc_binding_pod
  on_fluent_pvc b (failure e) = ret (err (wrap unexpected (api e)))
  on_fluent_pvc b (success fpvc) =
      if not (is_controlled_by l b fpvc)
      then update_controller_fluent_pvc b fpvc
          (l.set_controller_reference "FluentPVC" fpvc.meta b.meta)
      else if is_condition_unknown l b
      then ret (ok no_requeue)
      else fulfill_fluent_pvc_binding_pod l b >>= with_pod

  unfoldable pub on_binding : Reply FluentPvcBinding → Program (Outcome Result)
  unfolding on_fluent_pvc
  on_binding (failure e) =
      ret (if l.is_not_found e then ok no_requeue else err (wrap unexpected (api e)))
  on_binding (success b) = call (get_fluent_pvc b.spec.fluent_pvc.name) (on_fluent_pvc b)

  unfoldable pub reconcile : ObjectKey → Program (Outcome Result)
  unfolding on_binding
  reconcile req = call (get_binding req) on_binding
