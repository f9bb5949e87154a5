-- ===== src/Cluster/Consequences.antt =====
-- What a process of the operator may be about to do, whatever the order of the calls.
use fluent_pvc_operator.Cluster.Safety.{StillHolds, owed_call, still_holds}
use fluent_pvc_operator.Effect.{Call, delete_binding, create_or_update_job, update_pvc, delete_pvc}
use fluent_pvc_operator.Cluster.Processes.{Process, Reachable, next_call}
use fluent_pvc_operator.Cluster.Versions.{Lasts}
use fluent_pvc_operator.Controllers.Claims.Release.{MayRelease}
use fluent_pvc_operator.Lifecycle.Steps.{IsOrdered}
use fluent_pvc_operator.Cluster.Server.{Server, ServerLaws}
use fluent_pvc_operator.Cluster.Duties.{AwaitsJob, OwesJob}
use fluent_pvc_operator.Lifecycle.Decisions.{MayBeDeleted}
use fluent_pvc_operator.Webhooks.Admission.{Codec}
use fluent_pvc_operator.Api.{
  FluentPvcBinding, is_condition_pod_missing, is_condition_out_of_use,
  is_condition_finalizer_job_succeeded,
}
use fluent_pvc_operator.Lifecycle.Flags.{Flags, flags, holds}
use mathlib.Core.List.{Memᴰ}
use fluent_pvc_operator.Prelude.{
  String, ◌≡◌, true, ◌⊎◌, inl, inr, List, Option, some, none, arith, Bool, not, ◌||◌,
}
use fluent_pvc_operator.Kube.{Library, LibraryLaws, Job, DeleteOptions, Outcome}

-- The UID of the claim that a call takes the finalizer off or deletes.
abbrev pub released_uid : Call → Option String
released_uid (update_pvc p) = some p.meta.uid
released_uid (delete_pvc p o) = some p.meta.uid
released_uid _ = none

-- The pod never came, or it did, is gone, and the finalizer job has succeeded.
abbrev pub IsSettled : Flags → Type 0
IsSettled f =
    (f.pod_missing ≡ true)
    ⊎ ((f.ready ≡ true) × (f.out_of_use ≡ true) × (f.finalizer_job_succeeded ≡ true))

abbrev pub IsOver : Flags → Type 0
IsOver f = (f.pod_missing ≡ true) ⊎ (f.finalizer_job_succeeded ≡ true)

abbrev pub IsLeft : Flags → Type 0
IsLeft f = (f.ready ≡ true) × (f.out_of_use ≡ true)

abbrev pub NamesClaim : String → FluentPvcBinding → Type 0
NamesClaim u b = b.spec.pvc.uid ≡ u

module _ (l : Library) where
  pub release-IsSettled :
      (b : FluentPvcBinding) (g : Flags)
      → MayRelease l b
      → IsOrdered (flags l b)
      → Lasts (flags l b) g
      → IsSettled g
  unfolding is_condition_pod_missing flags holds
  release-IsSettled b g (inl missing) o h = inl (h.pod_missing missing)
  release-IsSettled b g (inr done) o h = inr (
    h.ready (used-ready o.use_after_ready used),
    h.out_of_use used,
    h.succeeded (unfold is_condition_finalizer_job_succeeded in done.succeeded),
  )
    where
      used : (flags l b).out_of_use ≡ true
      used = unfold is_condition_out_of_use flags holds in done.out_of_use

      used-ready : {u r : Bool} → (not u || r) ≡ true → u ≡ true → r ≡ true
      used-ready p q = ground arith

  deletion-IsOver :
      (b : FluentPvcBinding) (g : Flags)
      → MayBeDeleted l b
      → IsOrdered (flags l b)
      → Lasts (flags l b) g
      → IsOver g
  deletion-IsOver b g (inl missing) o h = inl (h.pod_missing missing)
  deletion-IsOver b g (inr succeeded) o h = inr (h.succeeded succeeded)

  job-IsLeft :
      (b : FluentPvcBinding) (g : Flags)
      → AwaitsJob l b
      → IsOrdered (flags l b)
      → Lasts (flags l b) g
      → IsLeft g
  job-IsLeft b g a o h = (h.ready (used-ready o.use_after_ready used), h.out_of_use used)
    where
      used : (flags l b).out_of_use ≡ true
      used = unfold is_condition_out_of_use flags holds in a.out_of_use

      used-ready : {u r : Bool} → (not u || r) ≡ true → u ≡ true → r ≡ true
      used-ready p q = ground arith

  module _ (codec : Codec) (sv : Server) (lib : LibraryLaws l) (laws : ServerLaws sv) {s : sv.State}
      {ps : List Process} (r : Reachable codec l sv s ps) (p : Process) (m : Memᴰ p ps) where
    -- Of the operator's handlers as any number of processes whose calls are interleaved in any
    -- order, over a server that meets its laws (reads may be stale, processes may stop for good,
    -- others may rewrite what is not a status): in every reachable state, a process whose next call
    -- takes the finalizer off a claim or deletes it has read a stored version of a binding that
    -- names the UID of the claim and lets it go; and the newest version of that binding misses its
    -- pod, or is ready, out of use and finalized with success.
    pub released_claim-IsSettled :
        (c : Call) (u : String)
        → next_call p.rest ≡ some c
        → released_uid c ≡ some u
        → StillHolds l sv s (λ b. NamesClaim u b × MayRelease l b) IsSettled
    released_claim-IsSettled (update_pvc q) u e h =
        let (b, n, (x, may)) = owed_call codec l sv lib laws r p m (update_pvc q) e in
        still_holds codec l sv lib laws r p m (λ b. NamesClaim u b × MayRelease l b) IsSettled
          (b, n, (ground arith, may)) (λ c g h. release-IsSettled c g h.1)
    released_claim-IsSettled (delete_pvc q o) u e h =
        let (b, n, (x, may)) = owed_call codec l sv lib laws r p m (delete_pvc q o) e in
        still_holds codec l sv lib laws r p m (λ b. NamesClaim u b × MayRelease l b) IsSettled
          (b, n, (ground arith, may)) (λ c g h. release-IsSettled c g h.1)
    released_claim-IsSettled _ u e h = cc h

    -- Of the operator's handlers as any number of processes whose calls are interleaved in any
    -- order, over a server that meets its laws (reads may be stale, processes may stop for good,
    -- others may rewrite what is not a status): in every reachable state, a process whose next call
    -- deletes a binding has read a stored version of a binding that misses its pod or is finalized
    -- with success, and so is the newest version of the binding that was read.
    pub deleted_binding-IsOver :
        (d : FluentPvcBinding) (o : DeleteOptions)
        → next_call p.rest ≡ some (delete_binding d o)
        → StillHolds l sv s (MayBeDeleted l) IsOver
    deleted_binding-IsOver d o e =
        still_holds codec l sv lib laws r p m (MayBeDeleted l) IsOver
          (owed_call codec l sv lib laws r p m (delete_binding d o) e) deletion-IsOver

    -- Of the operator's handlers as any number of processes whose calls are interleaved in any
    -- order, over a server that meets its laws (reads may be stale, processes may stop for good,
    -- others may rewrite what is not a status): in every reachable state, a process whose next call
    -- applies a job has read a stored version of the binding that the job is named for, which was
    -- known, was out of use, did not miss its pod and had no job applied; and the newest version of
    -- that binding is ready and out of use.
    pub applied_job-IsLeft :
        (j : Job) (f : Job → Outcome Job)
        → next_call p.rest ≡ some (create_or_update_job j f)
        → StillHolds l sv s (OwesJob l j) IsLeft
    applied_job-IsLeft j f e =
        still_holds codec l sv lib laws r p m (OwesJob l j) IsLeft
          (owed_call codec l sv lib laws r p m (create_or_update_job j f) e)
          (λ b g h. job-IsLeft b g h.1)
