-- ===== src/Cluster/Care.antt =====
-- Every handler as a process, against what it owes at each of its calls.
use fluent_pvc_operator.Cluster.Contracts.{Contract, Keeps, Keeps-bind}
use fluent_pvc_operator.Webhooks.PodValidator
use fluent_pvc_operator.Webhooks.FluentPvcValidator
use fluent_pvc_operator.Controllers.Pods
use fluent_pvc_operator.Controllers.FluentPvcs
use fluent_pvc_operator.Controllers.Bindings
use fluent_pvc_operator.Cluster.Admissions.{mutate-IsCareful, handle-IsQuiet}
use fluent_pvc_operator.Cluster.Others.{
  reconcile_pod-IsQuiet, reconcile_fluent_pvc-IsQuiet, start-IsQuiet, IsQuiet,
}
use fluent_pvc_operator.Cluster.Processes.{
  Handler, silent, program, reconcile_binding, reconcile_pvc, reconcile_pod, reconcile_fluent_pvc,
  mutate_pod, validate_pod, validate_fluent_pvc, watch,
}
use fluent_pvc_operator.Cluster.Duties.{IsCareful, duties, no_writes-IsCareful}
use fluent_pvc_operator.Webhooks.Admission.{Codec}
use fluent_pvc_operator.Effect.{Program, ret}
use fluent_pvc_operator.Prelude.{[]}
use fluent_pvc_operator.Kube.{Library, LibraryLaws}
use fluent_pvc_operator.Cluster.Claims.{reconcile-IsCareful as reconcile_pvc-IsCareful}
use fluent_pvc_operator.Cluster.Bindings.{reconcile-IsCareful as reconcile_binding-IsCareful}

pub silent-Keeps :
    {A : Type 0} (C : Contract) (k : C.Knowledge) (m : Program A)
    → Keeps C k (λ _ _. Unit) m
    → Keeps C k (λ _ _. Unit) (silent m)
silent-Keeps C k m h = Keeps-bind C k (λ _ _. Unit) (λ _ _. Unit) m (λ _. ret tt) h (λ now a u. tt)

silent-IsCareful :
    {A : Type 0} (l : Library) (m : Program A) → IsCareful l [] m → IsCareful l [] (silent m)
silent-IsCareful l m h = silent-Keeps (duties l) [] m h

silent-IsQuiet :
    {A : Type 0} (l : Library) (m : Program A) → IsQuiet l m → IsCareful l [] (silent m)
silent-IsQuiet l m h = silent-IsCareful l m (no_writes-IsCareful l [] m h)

-- Every handler pays what it owes.
pub Handler-IsCareful :
    (codec : Codec) (l : Library)
    → LibraryLaws l
    → (h : Handler) → IsCareful l [] (program codec l h)
Handler-IsCareful codec l laws (reconcile_binding req) =
    silent-IsCareful l _ (reconcile_binding-IsCareful l laws req)
Handler-IsCareful codec l laws (reconcile_pvc req) =
    silent-IsCareful l _ (reconcile_pvc-IsCareful l laws req)
Handler-IsCareful codec l laws (reconcile_pod req) =
    silent-IsQuiet l (Pods.reconcile l req) (reconcile_pod-IsQuiet l req)
Handler-IsCareful codec l laws (reconcile_fluent_pvc req) =
    silent-IsQuiet l (FluentPvcs.reconcile l req) (reconcile_fluent_pvc-IsQuiet l req)
Handler-IsCareful codec l laws (mutate_pod req) =
    silent-IsCareful l _ (mutate-IsCareful codec l req)
Handler-IsCareful codec l laws (validate_pod req) =
    silent-IsQuiet l (ret (PodValidator.handle codec req)) tt
Handler-IsCareful codec l laws (validate_fluent_pvc req) =
    silent-IsQuiet l (FluentPvcValidator.handle codec req) (handle-IsQuiet codec l req)
Handler-IsCareful codec l laws (watch fuel signals) =
    silent-IsQuiet l (Bindings.start fuel signals) (start-IsQuiet l fuel signals)
