-- ===== src/Examples/Schedule.antt =====
-- Runs of the operator on the example's server, by evaluation.
use fluent_pvc_operator.Cluster.Duties.{reveals}
use fluent_pvc_operator.Effect.{Program, ret, call}
use fluent_pvc_operator.Cluster.Processes.{
  Process, Handler, reconcile_binding, reconcile_pvc, Reachable, program, start, begun, mutate_pod,
  turned, next,
}
use fluent_pvc_operator.Prelude.{ℕ, suc, zero, ◌≡◌, refl, List, [], ◌∷◌, ◌++◌}
use fluent_pvc_operator.Examples.Server.{server, handle, nothing}
use fluent_pvc_operator.Examples.Libraries.{library}
use fluent_pvc_operator.Examples.Data.{codec, key, request}

pub record Run : Type 0 where
  pub state : server.State
  pub processes : List Process
  pub reach : Reachable codec library server state processes

abbrev begin : Handler → Run → Run
begin h run = record {
  state = run.state;
  processes = record { seen = []; rest = program codec library h } ∷ run.processes;
  reach = begun h run.reach refl;
}

-- The process that was begun last makes its next call.
abbrev advance : Run → Run
advance run = first run.processes run.reach
  where
    from :
        (p : Process) (ps : List Process)
        → Reachable codec library server run.state (p ∷ ps)
        → (m : Program (Unit {0})) → p.rest ≡ m
        → Run
    from p ps r (ret a) e = run
    from p ps r (call c k) e = record {
      state = (handle run.state c).1;
      processes =
          record {
            seen = reveals c (handle run.state c).0 ++ p.seen;
            rest = k (handle run.state c).0;
          }
          ∷ ps;
      reach = turned r (next c k (handle run.state c).0 e (refl, refl) refl);
    }

    first : (ps : List Process) → Reachable codec library server run.state ps → Run
    first [] r = run
    first (p ∷ ps) r = from p ps r p.rest refl

abbrev advances : ℕ → Run → Run
advances zero run = run
advances (suc n) run = advances n (advance run)

abbrev empty_run : Run
empty_run = record { state = (nothing, []); processes = []; reach = start refl }

-- A pod is admitted, its binding is created, and it never comes.
abbrev pub pod_missed : Run
pod_missed =
    advances 7 (begin (reconcile_binding key) (advances 5 (begin (mutate_pod request) empty_run)))

-- The claim reconciler has read the claim and the binding.
abbrev pub about_to_release : Run
about_to_release = advances 2 (begin (reconcile_pvc key) pod_missed)

-- The binding reconciler has found the claim gone.
abbrev pub about_to_delete : Run
about_to_delete = advances 5 (begin (reconcile_binding key) pod_missed)

-- The webhook crashes once it has created the binding; the pod comes and goes.
abbrev pub pod_left : Run
pod_left = advances 6 (
    begin (reconcile_binding key) (
      advances 6
        (begin (reconcile_binding key) (advances 4 (begin (mutate_pod request) empty_run)))))

-- The claim reconciler has found no job.
abbrev pub about_to_apply : Run
about_to_apply = advances 4 (begin (reconcile_pvc key) pod_left)

-- The job that it applies has succeeded, and the binding reconciler has seen that.
abbrev pub job_seen : Run
job_seen = advances 8 (begin (reconcile_binding key) (advances 1 about_to_apply))

-- The claim reconciler has taken the finalizer off.
abbrev pub finished : Run
finished = advances 3 (begin (reconcile_pvc key) job_seen)
