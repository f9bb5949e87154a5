-- ===== src/Examples/Runs.antt =====
-- The theorems on several runs at concrete inputs.
use fluent_pvc_operator.Examples.Data.{
  answers, binding, holding, out_of_use, finished, fpvc, claim, succeeded_job, key, named,
}
use fluent_pvc_operator.Examples.Libraries.{library, library_laws}
use fluent_pvc_operator.Lifecycle.Finishing.{
  SeesPodGone, SeesWorkDone, reads, Leaves, reconcile-release,
}
use fluent_pvc_operator.Failures.{Halts}
use fluent_pvc_operator.Failures.Reconcilers.{reconcile-Halts}
use fluent_pvc_operator.Controllers.Pods
use fluent_pvc_operator.Controllers.FluentPvcs
use fluent_pvc_operator.Lifecycle.Endings.{freed, deletion_of, reconcile-deletes}
use fluent_pvc_operator.Lifecycle.Flags.{flags, holds}
use fluent_pvc_operator.Controllers.Claims
use fluent_pvc_operator.Controllers.Claims.{binding_key}
use fluent_pvc_operator.Controllers.Claims.Release.{unprotected, calls_after_update}
use fluent_pvc_operator.Controllers.Bindings
use fluent_pvc_operator.Controllers.Bindings.{on_claim}
use fluent_pvc_operator.Controllers.Utils.{is_job_succeeded, is_job_failed}
use fluent_pvc_operator.Effect.{
  Environment, calls, get_binding, get_pod, get_pvc, list_jobs, update_pvc, update_binding,
}
use fluent_pvc_operator.Api.{
  FluentPvcBinding, is_condition_unknown, is_controlled_by, is_condition_finalizer_job_succeeded,
}
use fluent_pvc_operator.Kube.{ApiError, Condition, PersistentVolumeClaim, success, failure}
use fluent_pvc_operator.Prelude.{◌≡◌, some, inr, ◌++◌, refl, false, List, [], ◌∷◌}

abbrev in_use : FluentPvcBinding
in_use = binding (holding 1 "Ready" ∷ [])

abbrev gone : ApiError
gone = record { reason = "NotFound"; message = "" }

-- The pod is gone, and the job has succeeded.
abbrev work_done : FluentPvcBinding → Environment
work_done b n (get_pod k) = failure gone
work_done b n (list_jobs o) = success (succeeded_job ∷ [])
work_done b n c = answers b fpvc n c

sees_pod_gone :
    (cs : List Condition)
    → is_condition_unknown library (binding cs) ≡ false
    → SeesPodGone library (work_done (binding cs)) key (binding cs) (some claim)
unfolding is_controlled_by on_claim library
sees_pod_gone cs known = record {
  fpvc = fpvc;
  gone = gone;
  read = refl;
  fpvc_read = refl;
  controlled = refl;
  known = known;
  pod_named = refl;
  pod_read = refl;
  pod_gone = refl;
  claim_found = refl;
}

sees_work_done :
    (cs : List Condition)
    → is_condition_unknown library (binding cs) ≡ false
    → SeesWorkDone library (work_done (binding cs)) key (binding cs)
unfolding is_job_succeeded
sees_work_done cs known = record {
  pvc = claim;
  job = succeeded_job;
  sees = sees_pod_gone cs known;
  claim_kept = refl;
  jobs_read = refl;
  succeeded = refl;
}

in_use-Leaves : Leaves library (work_done in_use) key in_use out_of_use
unfolding Bindings.reconcile flags holds library is_job_succeeded
in_use-Leaves = refl

out_of_use-Leaves : Leaves library (work_done out_of_use) key out_of_use finished
unfolding Bindings.reconcile flags holds library is_job_succeeded is_job_failed
out_of_use-Leaves = refl

in_use-known : is_condition_unknown library in_use ≡ false
unfolding is_condition_unknown library
in_use-known = refl

out_of_use-known : is_condition_unknown library out_of_use ≡ false
unfolding is_condition_unknown library
out_of_use-known = refl

reconcile-release_example :
    calls (answers finished fpvc) 0 (Claims.reconcile library key)
    ≡ get_pvc key
      ∷ get_binding (binding_key key claim)
      ∷ update_pvc (unprotected library claim)
      ∷ calls_after_update library claim (success (unprotected library claim))
unfolding flags holds library
reconcile-release_example =
    reconcile-release library library_laws key (work_done in_use) (work_done out_of_use)
      (answers finished fpvc) in_use out_of_use finished claim key
      (sees_work_done in_use.status.conditions in_use-known)
      (sees_work_done out_of_use.status.conditions out_of_use-known) refl refl refl refl
      in_use-Leaves out_of_use-Leaves refl refl refl

abbrev released_claim : PersistentVolumeClaim
released_claim = record claim { meta = named "fluent-1" "u3" }

-- The claim has lost the finalizer.
abbrev claim_released : Environment
claim_released n (get_pvc k) = success released_claim
claim_released n c = work_done finished n c

finished-known : is_condition_unknown library finished ≡ false
unfolding is_condition_unknown library
finished-known = refl

sees_claim_released : SeesPodGone library claim_released key finished (some released_claim)
unfolding is_controlled_by on_claim library
sees_claim_released = record {
  fpvc = fpvc;
  gone = gone;
  read = refl;
  fpvc_read = refl;
  controlled = refl;
  known = finished-known;
  pod_named = refl;
  pod_read = refl;
  pod_gone = refl;
  claim_found = refl;
}

reconcile-deletes_example :
    calls claim_released 0 (Bindings.reconcile library key)
    ≡ reads key finished
      ++ update_binding (freed library finished) ∷ deletion_of (freed library finished) ∷ []
unfolding is_condition_finalizer_job_succeeded library
reconcile-deletes_example =
    reconcile-deletes library finished claim_released key (some released_claim) sees_claim_released
      (inr (refl, refl, refl))

reconcile-Halts_example :
    Halts library (Bindings.reconcile library key)
    × Halts library (Claims.reconcile library key)
    × Halts library (Pods.reconcile library key)
    × Halts library (FluentPvcs.reconcile library key)
reconcile-Halts_example = reconcile-Halts library key
