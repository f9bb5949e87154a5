-- ===== src/Lifecycle/Finishing.antt =====
-- How a claim that its pod has left is worked off and released, over runs of the binding reconciler
-- and one of the claim reconciler, controllers/fluentpvcbinding_controller.go and
-- controllers/pvc_controller.go.
use fluent_pvc_operator.Lifecycle.Flags.{Flags, flags, holds}
use fluent_pvc_operator.Lifecycle.Progress.{
  stored_flags, next_flags, finished_flags, decide-advances, next_flags-used,
}
use fluent_pvc_operator.Controllers.Claims
use fluent_pvc_operator.Controllers.Claims.{binding_key}
use fluent_pvc_operator.Controllers.Claims.Release.{
  IsDone, unprotected, calls_after_update, release_if_done,
}
use fluent_pvc_operator.Controllers.Bindings.{
  reconcile, decide, is_lost, on_claim, fulfill_fluent_pvc_binding_pvc,
}
use fluent_pvc_operator.Controllers.Utils.{is_job_succeeded}
use fluent_pvc_operator.Effect.{
  Call, Environment, calls, get_binding, get_fluent_pvc, get_pod, get_pvc, list_jobs, update_pvc,
}
use fluent_pvc_operator.Api.{
  FluentPvc, FluentPvcBinding, is_controlled_by, is_condition_unknown, is_condition_out_of_use,
  is_condition_finalizer_job_succeeded, is_condition_finalizer_job_failed,
  is_condition_finalizer_job_applied,
}
use fluent_pvc_operator.Kube.{
  Library, LibraryLaws, ObjectKey, ApiError, Job, PersistentVolumeClaim, success, failure, ok,
}
use fluent_pvc_operator.Prelude.{
  true, false, ◌≡◌, refl, ◌==◌, ap, sym, ◌∙◌, List, [], ◌∷◌, ◌++◌, Option, some, none, inr,
}

abbrev pod_key : FluentPvcBinding → ObjectKey
pod_key b = record { namespace = b.meta.namespace; name = b.spec.pod.name }

abbrev claim_key : FluentPvcBinding → ObjectKey
claim_key b = record { namespace = b.meta.namespace; name = b.spec.pvc.name }

-- A run reads a binding that belongs to its FluentPVC and is not unknown, whose pod is gone, and
-- finds `found` for its claim.
pub record SeesPodGone (l : Library) (env : Environment) (req : ObjectKey) (b : FluentPvcBinding)
    (found : Option PersistentVolumeClaim) : Type 0 where
  pub fpvc : FluentPvc
  pub gone : ApiError
  pub read : env 0 (get_binding req) ≡ success b
  pub fpvc_read : env 1 (get_fluent_pvc b.spec.fluent_pvc.name) ≡ success fpvc
  pub controlled : is_controlled_by l b fpvc ≡ true
  pub known : is_condition_unknown l b ≡ false
  pub pod_named : (b.spec.pod.name == "") ≡ false
  pub pod_read : env 2 (get_pod (pod_key b)) ≡ failure gone
  pub pod_gone : l.is_not_found gone ≡ true
  pub claim_found : on_claim l b (env 3 (get_pvc (claim_key b))) ≡ ok found

-- Its claim is there and not lost, and its one job has succeeded.
pub record SeesWorkDone (l : Library) (env : Environment) (req : ObjectKey) (b : FluentPvcBinding)
    : Type 0 where
  pub pvc : PersistentVolumeClaim
  pub job : Job
  pub sees : SeesPodGone l env req b (some pvc)
  pub claim_kept : is_lost (some pvc) ≡ false
  pub jobs_read : env 4 (list_jobs b.meta.name) ≡ success (job ∷ [])
  pub succeeded : is_job_succeeded job ≡ true

-- The reads before the decision.
abbrev pub reads : ObjectKey → FluentPvcBinding → List Call
reads req b =
    get_binding req
    ∷ get_fluent_pvc b.spec.fluent_pvc.name
    ∷ get_pod (pod_key b)
    ∷ get_pvc (claim_key b)
    ∷ []

module _ (l : Library) (env : Environment) (req : ObjectKey) (b : FluentPvcBinding)
    (found : Option PersistentVolumeClaim) (sees : SeesPodGone l env req b found) where
  pub reconcile-decides :
      calls env 0 (reconcile l req) ≡ reads req b ++ calls env 4 (decide l b none found)
  unfolding reconcile fulfill_fluent_pvc_binding_pvc
  reconcile-decides = rw sees.read (
      rw sees.fpvc_read (
        rw sees.controlled (
          rw sees.known
            (rw sees.pod_named (rw sees.pod_read (rw sees.pod_gone (rw sees.claim_found refl)))))))

module _ (l : Library) (env : Environment) (req : ObjectKey) (b : FluentPvcBinding)
    (sees : SeesWorkDone l env req b) where
  pub reconcile-advances :
      LibraryLaws l
      → (flags l b).ready ≡ true
      → (flags l b).finalizer_job_succeeded ≡ false
      → stored_flags l (calls env 0 (reconcile l req)) ≡ next_flags (flags l b) ∷ []
  reconcile-advances laws ready unfinished =
      ap (stored_flags l) (reconcile-decides l env req b (some sees.pvc) sees.sees)
      ∙ decide-advances l laws env 4 b sees.pvc sees.job ready unfinished sees.claim_kept
          sees.jobs_read sees.succeeded

-- The flags of a binding after the statuses that a run stores.
abbrev pub left_flags : Flags → List Flags → Flags
left_flags f [] = f
left_flags f (g ∷ gs) = left_flags g gs

-- A run of the binding reconciler on `b` leaves the flags of `c`.
abbrev pub Leaves : Library → Environment → ObjectKey → FluentPvcBinding → FluentPvcBinding → Type 0
Leaves l env req b c =
    left_flags (flags l b) (stored_flags l (calls env 0 (reconcile l req))) ≡ flags l c

module _ (l : Library) (laws : LibraryLaws l) (req : ObjectKey) where
  Leaves-next_flags :
      (env : Environment) (b c : FluentPvcBinding)
      → SeesWorkDone l env req b
      → (flags l b).ready ≡ true
      → (flags l b).finalizer_job_succeeded ≡ false
      → Leaves l env req b c
      → flags l c ≡ next_flags (flags l b)
  Leaves-next_flags env b c sees ready unfinished leaves =
      sym leaves
      ∙ ap (left_flags (flags l b)) (reconcile-advances l env req b sees laws ready unfinished)

  -- after two of them
  Leaves-finished_flags :
      (env env' : Environment) (b c d : FluentPvcBinding)
      → SeesWorkDone l env req b
      → SeesWorkDone l env' req c
      → (flags l b).ready ≡ true
      → (flags l b).out_of_use ≡ false
      → (flags l b).finalizer_job_succeeded ≡ false
      → Leaves l env req b c
      → Leaves l env' req c d
      → flags l d ≡ finished_flags (record (flags l b) { out_of_use = true })
  Leaves-finished_flags env env' b c d sees sees' ready used unfinished leaves leaves' =
      Leaves-next_flags env' c d sees' (ap (λ f. f.ready) first ∙ ready)
        (ap (λ f. f.finalizer_job_succeeded) first ∙ unfinished) leaves'
      ∙ ap next_flags first
    where
      first : flags l c ≡ record (flags l b) { out_of_use = true }
      first =
          Leaves-next_flags env b c sees ready unfinished leaves ∙ next_flags-used (flags l b) used

  finished-IsDone :
      (f : Flags) (d : FluentPvcBinding)
      → f.unknown ≡ false
      → f.finalizer_job_failed ≡ false
      → flags l d ≡ finished_flags (record f { out_of_use = true })
      → IsDone l d × (is_condition_finalizer_job_applied l d ≡ true)
  unfolding flags holds is_condition_unknown is_condition_out_of_use
      is_condition_finalizer_job_succeeded is_condition_finalizer_job_failed
      is_condition_finalizer_job_applied
  finished-IsDone f d known fine e = (
    record {
      known = ap (λ g. g.unknown) e ∙ known;
      out_of_use = ap (λ g. g.out_of_use) e;
      succeeded = ap (λ g. g.finalizer_job_succeeded) e;
      not_failed = ap (λ g. g.finalizer_job_failed) e ∙ fine;
    },
    ap (λ g. g.finalizer_job_applied) e,
  )

  -- Of a binding that is ready, not out of use, known and neither finalized with success nor with
  -- failure: if two runs of its reconciler read it, the second with the flags that the first has
  -- left, if both find it controlled by its FluentPVC and known, its pod gone, its claim there and
  -- not lost, and just one job, which has succeeded, and if a run of the claim reconciler then
  -- reads the claim and the binding with the flags that the second has left, which names the
  -- claim's UID, then this run makes these two reads, takes the operator's finalizer off the claim,
  -- and deletes the claim if the update is accepted or finds the claim gone.
  pub reconcile-release :
      (env env' final : Environment) (b c d : FluentPvcBinding) (claim : PersistentVolumeClaim)
      (claim_req : ObjectKey)
      → SeesWorkDone l env req b
      → SeesWorkDone l env' req c
      → (flags l b).ready ≡ true
      → (flags l b).out_of_use ≡ false
      → (flags l b).finalizer_job_succeeded ≡ false
      → (flags l b).finalizer_job_failed ≡ false
      → Leaves l env req b c
      → Leaves l env' req c d
      → final 0 (get_pvc claim_req) ≡ success claim
      → final 1 (get_binding (binding_key claim_req claim)) ≡ success d
      → (claim.meta.uid == d.spec.pvc.uid) ≡ true
      → calls final 0 (Claims.reconcile l claim_req)
        ≡ get_pvc claim_req
          ∷ get_binding (binding_key claim_req claim)
          ∷ update_pvc (unprotected l claim)
          ∷ calls_after_update l claim (final 2 (update_pvc (unprotected l claim)))
  unfolding flags holds is_condition_unknown
  reconcile-release env env' final b c d claim claim_req sees sees' ready used unfinished fine
        leaves leaves' read_claim read_binding same =
      let (done, applied) =
        finished-IsDone (flags l b) d sees.sees.known fine
          (Leaves-finished_flags env env' b c d sees sees' ready used unfinished leaves leaves') in
      release_if_done l final claim_req claim d read_claim read_binding same (inr done) applied
