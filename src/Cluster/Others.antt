-- ===== src/Cluster/Others.antt =====
-- The other handlers as processes: the reconcilers of pods and FluentPVCs, and the
-- watcher.
use fluent_pvc_operator.Controllers.Utils.{is_pod_running_phase, find_container_status_by_name}
use fluent_pvc_operator.Cluster.Duties.{no_writes}
use fluent_pvc_operator.Controllers.Bindings.{
  send_all, fire_pages, fire_event, start, on_fired, Signal, done, tick,
}
use fluent_pvc_operator.Lifecycle.Rules.{Saves-if, Saves, Obeys}
use fluent_pvc_operator.Api.{FluentPvc, FluentPvcBinding, pod_label_fluent_pvc_name}
use fluent_pvc_operator.Effect.{Program, BindingPage, ret, Ensures-bind}
use fluent_pvc_operator.Controllers.Pods.{on_status, label}
use fluent_pvc_operator.Prelude.{
  Option, none, some, List, [], ◌∷◌, ◌==◌, ◌&&◌, not, nat_eq, suc, zero, is_some, if◌then◌else◌,
  String, ℕ,
}
use fluent_pvc_operator.Kube.{
  Library, Reply, success, failure, Outcome, ok, err, panicked, Pod, ContainerStatus, ObjectKey,
}
use fluent_pvc_operator.Controllers.Pods
use fluent_pvc_operator.Controllers.FluentPvcs

module _ (l : Library) where
  -- A program that writes nothing of a binding.
  abbrev pub IsQuiet : {A : Type 0} → Program A → Type 0
  IsQuiet m = Saves (no_writes l) m

  on_status-IsQuiet :
      (pod : Pod) (name : String) (o : Option ContainerStatus) → IsQuiet (on_status l pod name o)
  unfolding on_status
  on_status-IsQuiet pod name none = tt
  on_status-IsQuiet pod name (some status) =
      Saves-if (no_writes l) (nat_eq status.restart_count 0 && not (is_some status.terminated)) _ _
        (λ _. tt) (λ _. (tt, λ r. tt))

  on_read-IsQuiet : (pod : Pod) (r : Reply FluentPvc) → IsQuiet (Pods.on_fluent_pvc l pod r)
  unfolding Pods.on_fluent_pvc
  on_read-IsQuiet pod (failure e) = tt
  on_read-IsQuiet pod (success fpvc) =
      Saves-if (no_writes l) (not fpvc.spec.delete_pod_if_sidecar_container_termination_detected) _
        _ (λ _. tt)
        (λ _. on_status-IsQuiet pod fpvc.spec.sidecar_container_template.name (
          find_container_status_by_name pod.container_statuses
            fpvc.spec.sidecar_container_template.name))

  on_label-IsQuiet : (pod : Pod) (o : Option String) → IsQuiet (Pods.on_label l pod o)
  unfolding Pods.on_label
  on_label-IsQuiet pod none = tt
  on_label-IsQuiet pod (some name) =
      Saves-if (no_writes l) (not (is_pod_running_phase pod)) _ _ (λ _. tt)
        (λ _. (tt, λ r. on_read-IsQuiet pod r))

  on_pod-IsQuiet : (r : Reply Pod) → IsQuiet (Pods.on_pod l r)
  unfolding Pods.on_pod
  on_pod-IsQuiet (failure e) = tt
  on_pod-IsQuiet (success pod) =
      on_label-IsQuiet pod (label pod.meta.labels pod_label_fluent_pvc_name)

  pub reconcile_pod-IsQuiet : (req : ObjectKey) → IsQuiet (Pods.reconcile l req)
  unfolding Pods.reconcile
  reconcile_pod-IsQuiet req = (tt, λ r. on_pod-IsQuiet r)

  on_bindings-IsQuiet :
      (fpvc : FluentPvc) (r : Reply (List FluentPvcBinding))
      → IsQuiet (FluentPvcs.on_bindings l fpvc r)
  unfolding FluentPvcs.on_bindings
  on_bindings-IsQuiet fpvc (success bs) = (tt, λ r. tt)
  on_bindings-IsQuiet fpvc (failure e) =
      Saves-if (no_writes l) (l.is_not_found e) _ _ (λ _. (tt, λ r. tt)) (λ _. tt)

  on_fluent_pvc-IsQuiet : (r : Reply FluentPvc) → IsQuiet (FluentPvcs.on_fluent_pvc l r)
  unfolding FluentPvcs.on_fluent_pvc
  on_fluent_pvc-IsQuiet (success fpvc) = (tt, λ r. on_bindings-IsQuiet fpvc r)
  on_fluent_pvc-IsQuiet (failure e) = tt

  pub reconcile_fluent_pvc-IsQuiet : (req : ObjectKey) → IsQuiet (FluentPvcs.reconcile l req)
  unfolding FluentPvcs.reconcile
  reconcile_fluent_pvc-IsQuiet req = (tt, λ r. on_fluent_pvc-IsQuiet r)

  send_all-IsQuiet :
      {A : Type 0} (bs : List FluentPvcBinding) (next : Program A)
      → IsQuiet next
      → IsQuiet (send_all bs next)
  unfolding send_all
  send_all-IsQuiet [] next h = h
  send_all-IsQuiet (b ∷ bs) next h = (tt, λ _. send_all-IsQuiet bs next h)

  page-IsQuiet :
      (rest : String → Program (Option (Outcome (Unit {0}))))
      → ((token : String) → IsQuiet (rest token))
      → (page : BindingPage)
      → IsQuiet (
          send_all page.items
            (if page.continue == "" then ret (some (ok tt)) else rest page.continue))
  page-IsQuiet rest h page =
      send_all-IsQuiet page.items _
        (Saves-if (no_writes l) (page.continue == "") _ _ (λ _. tt) (λ _. h page.continue))

  fire_pages-IsQuiet : (fuel : ℕ) (token : String) → IsQuiet (fire_pages fuel token)
  unfolding fire_pages
  fire_pages-IsQuiet zero token = tt
  fire_pages-IsQuiet (suc fuel) token = (
    tt,
    elim [
      | failure e ↦ tt
      | success page ↦ page-IsQuiet (λ t. fire_pages fuel t) (λ t. fire_pages-IsQuiet fuel t) page
    ],
  )

  fire_event-IsQuiet : (fuel : ℕ) → IsQuiet (fire_event fuel)
  unfolding fire_event
  fire_event-IsQuiet fuel = fire_pages-IsQuiet fuel ""

  on_fired-IsQuiet :
      (next : Program (Option (Outcome (Unit {0})))) (r : Option (Outcome (Unit {0})))
      → IsQuiet next
      → IsQuiet (on_fired next r)
  unfolding on_fired
  on_fired-IsQuiet next (some (ok u)) h = h
  on_fired-IsQuiet next (some (err e)) h = tt
  on_fired-IsQuiet next (some panicked) h = tt
  on_fired-IsQuiet next none h = tt

  pub start-IsQuiet : (fuel : ℕ) (ss : List Signal) → IsQuiet (start fuel ss)
  unfolding start
  start-IsQuiet fuel [] = tt
  start-IsQuiet fuel (done ∷ ss) = tt
  start-IsQuiet fuel (tick ∷ ss) =
      Ensures-bind (Obeys (no_writes l)) (λ _. Unit {0}) (λ _. Unit {0}) (fire_event fuel)
        (on_fired (start fuel ss)) (fire_event-IsQuiet fuel)
        (λ r _. on_fired-IsQuiet (start fuel ss) r (start-IsQuiet fuel ss))
