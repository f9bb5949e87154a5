-- ===== src/Setup/Controllers.antt =====
-- The functions SetupWithManager of controllers/pod_controller.go, pvc_controller.go,
-- fluentpvc_controller.go and fluentpvcbinding_controller.go, and those of webhooks/pod_webhook.go
-- and fluentpvc_webhook.go.
use fluent_pvc_operator.Api.{owner_controller_field}
use fluent_pvc_operator.Setup.Steps.{
  Controller, Event, create_event, delete_event, update_event, generic_event, Wiring, done, step,
  index_jobs, index_bindings, add_watcher, complete, register_webhook, pods, claims, jobs,
  fluent_pvcs, bindings,
}
use fluent_pvc_operator.Effect.{ret}
use fluent_pvc_operator.Webhooks.Admission.{Codec}
use fluent_pvc_operator.Controllers.Utils.{
  second, unexpected, index_job_by_owner_fluent_pvc_binding,
  index_fluent_pvc_binding_by_owner_fluent_pvc,
}
use fluent_pvc_operator.Controllers.Bindings.{list_limit}
use fluent_pvc_operator.Kube.{Library, Error, wrap}
use fluent_pvc_operator.Prelude.{ℕ, Bool, true, false, Option, none, some, [], ◌∷◌, ◌*◌}
use fluent_pvc_operator.Controllers.Bindings
use fluent_pvc_operator.Controllers.Claims
use fluent_pvc_operator.Controllers.FluentPvcs
use fluent_pvc_operator.Controllers.Pods
use fluent_pvc_operator.Webhooks.PodMutator
use fluent_pvc_operator.Webhooks.PodValidator
use fluent_pvc_operator.Webhooks.FluentPvcValidator

-- `if err != nil { return xerrors.Errorf(…) }`
abbrev pub unless_error : Option Error → Wiring (Option Error) → Wiring (Option Error)
unless_error none next = next
unless_error (some e) next = done (some (wrap unexpected e))

unfoldable pub created_or_updated : Event → Bool
created_or_updated create_event = true
created_or_updated delete_event = false
created_or_updated update_event = true
created_or_updated generic_event = false

unfoldable pub not_deleted : Event → Bool
not_deleted create_event = true
not_deleted delete_event = false
not_deleted update_event = true
not_deleted generic_event = true

abbrev pub tick_length : ℕ
tick_length = 5 * second

module _ (l : Library) where
  unfoldable pub pod_controller : Controller
  pod_controller = record {
    kind = pods;
    owned = [];
    event_filter = created_or_updated;
    watches_channel = false;
    reconciler = Pods.reconcile l;
  }

  unfoldable pub claim_controller : Controller
  claim_controller = record {
    kind = claims;
    owned = [];
    event_filter = created_or_updated;
    watches_channel = false;
    reconciler = Claims.reconcile l;
  }

  unfoldable pub fluent_pvc_controller : Controller
  fluent_pvc_controller = record {
    kind = fluent_pvcs;
    owned = bindings ∷ [];
    event_filter = created_or_updated;
    watches_channel = false;
    reconciler = FluentPvcs.reconcile l;
  }

  unfoldable pub binding_controller : Controller
  binding_controller = record {
    kind = bindings;
    owned = jobs ∷ [];
    event_filter = not_deleted;
    watches_channel = true;
    reconciler = Bindings.reconcile l;
  }

  unfoldable pub setup_pods : Wiring (Option Error)
  setup_pods = step (complete pod_controller) done

  unfoldable pub setup_claims : Wiring (Option Error)
  setup_claims = step (complete claim_controller) done

  unfoldable pub setup_fluent_pvcs : Wiring (Option Error)
  setup_fluent_pvcs =
      step (index_bindings owner_controller_field (index_fluent_pvc_binding_by_owner_fluent_pvc l))
        (λ indexed. unless_error indexed (step (complete fluent_pvc_controller) done))

  unfoldable pub setup_bindings : Wiring (Option Error)
  setup_bindings =
      step (index_jobs owner_controller_field (index_job_by_owner_fluent_pvc_binding l)) (λ indexed.
        unless_error indexed (
          step (add_watcher list_limit tick_length)
            (λ added. unless_error added (step (complete binding_controller) done))))

  module _ (codec : Codec) where
    unfoldable pub setup_pod_webhook : Wiring (Option Error)
    setup_pod_webhook =
        step (register_webhook "/pod/validate" (λ req. ret (PodValidator.handle codec req)))
          (λ _. step (register_webhook "/pod/mutate" (PodMutator.handle codec l)) (λ _. done none))

    unfoldable pub setup_fluent_pvc_webhook : Wiring (Option Error)
    setup_fluent_pvc_webhook =
        step (register_webhook "/fluent-pvc/validate" (FluentPvcValidator.handle codec))
          (λ _. done none)
