-- ===== src/Controllers/Bindings/Updates.antt =====
-- The updates of a binding's conditions, and its deletion. A message is given by its format text.
use fluent_pvc_operator.Prelude.{ℕ, String, if◌then◌else◌}
use fluent_pvc_operator.Kube.{Library, Reply, success, failure, Error, api, wrap, Outcome, ok, err}
use fluent_pvc_operator.Api.{
  FluentPvcBinding, set_condition_unknown, set_condition_out_of_use, set_condition_ready,
  set_condition_pod_missing, fluent_pvc_binding_finalizer_name,
}
use fluent_pvc_operator.Effect.{
  Program, ret, call, time_now, update_binding, update_binding_status, delete_binding,
}
use fluent_pvc_operator.Controllers.Utils.{
  Result, no_requeue, unexpected, delete_options_background,
}

-- The error of a helper, wrapped once more by its caller.
abbrev pub unexpected_twice : Error → Error
unexpected_twice e = wrap unexpected (wrap unexpected e)

-- `r.Status().Update(ctx, b)`, then the end of `Reconcile`
abbrev pub saved : {A : Type 0} → Reply A → Outcome Result
saved (success _) = ok no_requeue
saved (failure e) = err (unexpected_twice (api e))

unfoldable pub save : FluentPvcBinding → Program (Outcome Result)
save b = call (update_binding_status b) (λ r. ret (saved r))

module _ (l : Library) where
  -- `updateCondition` with the setter that it is given
  unfoldable pub update_condition :
      (ℕ → FluentPvcBinding → String → String → FluentPvcBinding)
      → FluentPvcBinding
      → String
      → String
      → Program (Outcome Result)
  unfolding save
  update_condition set b reason message = call time_now (λ now. save (set now b reason message))

  unfoldable pub update_condition_unknown :
      FluentPvcBinding → String → String → Program (Outcome Result)
  unfolding save set_condition_unknown
  update_condition_unknown b reason message =
      call time_now (λ now. save (set_condition_unknown l now b reason message))

  unfoldable pub update_condition_out_of_use :
      FluentPvcBinding → String → String → Program (Outcome Result)
  unfolding update_condition set_condition_out_of_use
  update_condition_out_of_use b = update_condition (set_condition_out_of_use l) b

  unfoldable pub update_condition_ready :
      FluentPvcBinding → String → String → Program (Outcome Result)
  unfolding update_condition set_condition_ready
  update_condition_ready b = update_condition (set_condition_ready l) b

  unfoldable pub update_condition_pod_missing :
      FluentPvcBinding → String → String → Program (Outcome Result)
  unfolding update_condition set_condition_pod_missing
  update_condition_pod_missing b = update_condition (set_condition_pod_missing l) b

  unfoldable pub update_condition_unknown_pvc_lost : FluentPvcBinding → Program (Outcome Result)
  unfolding update_condition_unknown
  update_condition_unknown_pvc_lost b =
      update_condition_unknown b "PVCLost" "pvc='%s'(UID='%s') is lost.(fluentpvcbinding='%s')"

  unfoldable pub update_condition_pod_missing_binding_pod_timeout :
      FluentPvcBinding → Program (Outcome Result)
  unfolding update_condition_pod_missing
  update_condition_pod_missing_binding_pod_timeout b =
      update_condition_pod_missing b "BindingPodTimeout"
        "Pod='%s'(UID='%s') is not found even though it hasn't been finalized since it became Ready status.(fluentpvcbinding='%s')"

  unfoldable pub update_condition_unknown_pod_and_pvc_not_found :
      FluentPvcBinding → Program (Outcome Result)
  unfolding update_condition_unknown
  update_condition_unknown_pod_and_pvc_not_found b =
      update_condition_unknown b "PodAndPVCNotFound"
        "Both pod='%s'(UID='%s') and pvc='%s'(UID='%s') are not found even though it hasn't been finalized since it became Ready status.(fluentpvcbinding='%s')"

  unfoldable pub update_condition_unknown_pod_running_pvc_not_found :
      FluentPvcBinding → Program (Outcome Result)
  unfolding update_condition_unknown
  update_condition_unknown_pod_running_pvc_not_found b =
      update_condition_unknown b "PodRunningButPVCNotFound"
        "Pod='%s'(UID='%s') is running, but pvc='%s'(UID='%s') is not found.(fluentpvcbinding='%s')"

  unfoldable pub update_condition_unknown_pod_completed_pvc_not_found :
      FluentPvcBinding → Program (Outcome Result)
  unfolding update_condition_unknown
  update_condition_unknown_pod_completed_pvc_not_found b =
      update_condition_unknown b "PodCompletedPVCNotFound"
        "pod='%s'(UID='%s') is completed, but pvc='%s'(UID='%s') is not found.(fluentpvcbinding='%s')"

  unfoldable pub update_condition_out_of_use_pod_deleted_pvc_found :
      FluentPvcBinding → Program (Outcome Result)
  unfolding update_condition_out_of_use
  update_condition_out_of_use_pod_deleted_pvc_found b =
      update_condition_out_of_use b "PodDeletedPVCFound"
        "pod='%s'(UID='%s') is deleted and pvc='%s'(UID='%s') is found.(fluentpvcbinding='%s')"

  unfoldable pub update_condition_out_of_use_pod_completed_pvc_found :
      FluentPvcBinding → Program (Outcome Result)
  unfolding update_condition_out_of_use
  update_condition_out_of_use_pod_completed_pvc_found b =
      update_condition_out_of_use b "PodCompletedPVCFound"
        "pod='%s'(UID='%s') is completed and pvc='%s'(UID='%s') is found.(fluentpvcbinding='%s')"

  unfoldable pub update_condition_ready_pod_found_pvc_found :
      FluentPvcBinding → Program (Outcome Result)
  unfolding update_condition_ready
  update_condition_ready_pod_found_pvc_found b =
      update_condition_ready b "PodFoundPVCFound"
        "Both pod='%s'(UID='%s') and pvc='%s'(UID='%s') are found.(fluentpvcbinding='%s')"

  abbrev pub deleted : Reply (Unit {0}) → Outcome Result
  deleted (success _) = ok no_requeue
  deleted (failure e) = if l.is_not_found e then ok no_requeue else err (unexpected_twice (api e))

  unfoldable pub delete_stored : FluentPvcBinding → Program (Outcome Result)
  unfolding delete_options_background
  delete_stored b =
      call (delete_binding b (delete_options_background b.meta.uid b.meta.resource_version))
        (λ r. ret (deleted r))

  unfoldable pub on_unprotected :
      FluentPvcBinding → Reply FluentPvcBinding → Program (Outcome Result)
  unfolding delete_stored
  on_unprotected b (success stored) = delete_stored stored
  on_unprotected b (failure e) =
      if l.is_not_found e then delete_stored b else ret (err (unexpected_twice (api e)))

  unfoldable pub delete_fluent_pvc_binding : FluentPvcBinding → Program (Outcome Result)
  unfolding on_unprotected delete_stored
  delete_fluent_pvc_binding b =
      if l.contains_finalizer b.meta fluent_pvc_binding_finalizer_name
      then (let b' = record b {
        meta = l.remove_finalizer b.meta fluent_pvc_binding_finalizer_name;
      } in
          call (update_binding b') (on_unprotected b'))
      else delete_stored b
