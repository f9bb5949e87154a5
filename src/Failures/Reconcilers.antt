-- ===== src/Failures/Reconcilers.antt =====
-- The errors of the server in the runs of all reconcilers.
use fluent_pvc_operator.Failures.{Halts}
use fluent_pvc_operator.Failures.Runs.{reconcile_binding-Halts}
use fluent_pvc_operator.Failures.Claims.{reconcile_pvc-Halts}
use fluent_pvc_operator.Failures.Others.{reconcile_pod-Halts, reconcile_fluent_pvc-Halts}
use fluent_pvc_operator.Controllers.Bindings
use fluent_pvc_operator.Controllers.Claims
use fluent_pvc_operator.Controllers.Pods
use fluent_pvc_operator.Controllers.FluentPvcs
use fluent_pvc_operator.Kube.{Library, ObjectKey}

-- Whatever the server answers in runs of the four reconcilers: a call that is answered with an
-- error which tells neither that the object is gone nor that it has changed is the last call of its
-- run, and so is a creation or update of the job that ends in an error; and the run then returns an
-- error.
pub reconcile-Halts :
    (l : Library) (req : ObjectKey)
    → Halts l (Bindings.reconcile l req)
      × Halts l (Claims.reconcile l req)
      × Halts l (Pods.reconcile l req)
      × Halts l (FluentPvcs.reconcile l req)
reconcile-Halts l req = (
  reconcile_binding-Halts l req,
  reconcile_pvc-Halts l req,
  reconcile_pod-Halts l req,
  reconcile_fluent_pvc-Halts l req,
)
