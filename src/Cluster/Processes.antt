-- ===== src/Cluster/Processes.antt =====
-- The handlers of the operator as processes, in any number and interleaved at their calls.
use fluent_pvc_operator.Cluster.Duties.{reveals}
use fluent_pvc_operator.Cluster.Server.{Server}
use fluent_pvc_operator.Controllers.Bindings.{Signal}
use fluent_pvc_operator.Api.{FluentPvcBinding}
use fluent_pvc_operator.Webhooks.Admission.{Request, Codec}
use fluent_pvc_operator.Prelude.{ℕ, ◌≡◌, List, [], ◌∷◌, ◌++◌, Option, none, some}
use fluent_pvc_operator.Kube.{Library, ObjectKey}
use fluent_pvc_operator.Effect.{Program, ret, call, Call, Answer, ◌>>=◌}
use fluent_pvc_operator.Controllers.Claims
use fluent_pvc_operator.Controllers.Pods
use fluent_pvc_operator.Controllers.FluentPvcs
use fluent_pvc_operator.Controllers.Bindings
use fluent_pvc_operator.Webhooks.PodMutator
use fluent_pvc_operator.Webhooks.PodValidator
use fluent_pvc_operator.Webhooks.FluentPvcValidator

pub data Handler : Type 0 where
  reconcile_binding reconcile_pvc reconcile_pod reconcile_fluent_pvc : ObjectKey → Handler
  mutate_pod validate_pod validate_fluent_pvc : Request → Handler
  -- `Start` with the fuel of its rounds and the signals that it receives
  watch : ℕ → List Signal → Handler

-- A run without its result.
abbrev pub silent : {A : Type 0} → Program A → Program (Unit {0})
silent m = m >>= λ _. ret tt

abbrev pub program : Codec → Library → Handler → Program (Unit {0})
program codec l (reconcile_binding req) = silent (Bindings.reconcile l req)
program codec l (reconcile_pvc req) = silent (Claims.reconcile l req)
program codec l (reconcile_pod req) = silent (Pods.reconcile l req)
program codec l (reconcile_fluent_pvc req) = silent (FluentPvcs.reconcile l req)
program codec l (mutate_pod req) = silent (PodMutator.handle codec l req)
program codec l (validate_pod req) = silent (ret (PodValidator.handle codec req))
program codec l (validate_fluent_pvc req) = silent (FluentPvcValidator.handle codec req)
program codec l (watch fuel signals) = silent (Bindings.start fuel signals)

-- The bindings that a process has read, and the rest of its run.
pub record Process : Type 0 where
  pub seen : List FluentPvcBinding
  pub rest : Program (Unit {0})

-- The call that a run makes next.
abbrev pub next_call : {A : Type 0} → Program A → Option Call
next_call (ret a) = none
next_call (call c k) = some c

module _ (codec : Codec) (l : Library) (sv : Server) where
  -- One process makes its next call.
  pub data Turn (s s' : sv.State) : List Process → List Process → Type 0 where
    next :
        {p q : Process} {ps : List Process} (c : Call) (k : Answer c → Program (Unit {0}))
        (r : Answer c)
        → p.rest ≡ call c k
        → sv.serves s c r s'
        → q ≡ record { seen = reveals c r ++ p.seen; rest = k r }
        → Turn s s' (p ∷ ps) (q ∷ ps)
    later : {p : Process} {ps qs : List Process} → Turn s s' ps qs → Turn s s' (p ∷ ps) (p ∷ qs)

  -- The states that the server and the processes come to. A process that is never continued is one
  -- that has crashed.
  pub data Reachable : sv.State → List Process → Type 0 where
    start : {s : sv.State} → sv.initial s → Reachable s []
    begun :
        {s : sv.State} {ps : List Process} {p : Process} (h : Handler)
        → Reachable s ps
        → p ≡ record { seen = []; rest = program codec l h }
        → Reachable s (p ∷ ps)
    turned :
        {s s' : sv.State} {ps qs : List Process}
        → Reachable s ps
        → Turn s s' ps qs
        → Reachable s' qs
    moved :
        {s s' : sv.State} {ps : List Process} → Reachable s ps → sv.others s s' → Reachable s' ps
