-- ===== src/Controllers/FluentPvcs.antt =====
-- controllers/fluentpvc_controller.go
pub mod Protection
use fluent_pvc_operator.Prelude.{Bool, true, false, List, [], ◌∷◌, if◌then◌else◌}
use fluent_pvc_operator.Kube.{
  Library, ObjectKey, Reply, success, failure, Outcome, ok, err, api, wrap,
}
use fluent_pvc_operator.Api.{
  FluentPvc, FluentPvcBinding, fluent_pvc_finalizer_name, fluent_pvc_binding_finalizer_name,
}
use fluent_pvc_operator.Effect.{
  Program, ret, call, get_fluent_pvc, list_bindings, update_fluent_pvc,
}
use fluent_pvc_operator.Controllers.Utils.{Result, no_requeue, unexpected}

module _ (l : Library) where
  -- the loop over the bindings, which stops at the first that has its finalizer
  unfoldable pub all_bindings_finalized : List FluentPvcBinding → Bool
  all_bindings_finalized [] = true
  all_bindings_finalized (b ∷ bs) =
      if l.contains_finalizer b.meta fluent_pvc_binding_finalizer_name
      then false
      else all_bindings_finalized bs

  abbrev pub finish_update : Reply FluentPvc → Outcome Result
  finish_update (success _) = ok no_requeue
  finish_update (failure e) = err (wrap unexpected (api e))

  unfoldable pub refinalize : FluentPvc → List FluentPvcBinding → FluentPvc
  unfolding all_bindings_finalized
  refinalize fpvc bindings = record fpvc {
    meta =
        if all_bindings_finalized bindings
        then l.remove_finalizer fpvc.meta fluent_pvc_finalizer_name
        else l.add_finalizer fpvc.meta fluent_pvc_finalizer_name;
  }

  -- a list that is not found is empty
  unfoldable pub on_bindings : FluentPvc → Reply (List FluentPvcBinding) → Program (Outcome Result)
  unfolding refinalize
  on_bindings fpvc (success bindings) =
      call (update_fluent_pvc (refinalize fpvc bindings)) (λ r. ret (finish_update r))
  on_bindings fpvc (failure e) =
      if l.is_not_found e
      then call (update_fluent_pvc (refinalize fpvc [])) (λ r. ret (finish_update r))
      else ret (err (wrap unexpected (api e)))

  unfoldable pub on_fluent_pvc : Reply FluentPvc → Program (Outcome Result)
  unfolding on_bindings
  on_fluent_pvc (success fpvc) = call (list_bindings fpvc.meta.name) (on_bindings fpvc)
  on_fluent_pvc (failure e) =
      ret (if l.is_not_found e then ok no_requeue else err (wrap unexpected (api e)))

  unfoldable pub reconcile : ObjectKey → Program (Outcome Result)
  unfolding on_fluent_pvc
  reconcile req = call (get_fluent_pvc req.name) on_fluent_pvc
