-- ===== src/Cluster/Finishing.antt =====
-- Why a claim has lost the finalizer, down to the job that the server has shown.
use fluent_pvc_operator.Cluster.Success.{Reachable-Backed}
use fluent_pvc_operator.Cluster.Jobs.{JobRecord, JobLaws}
use fluent_pvc_operator.Cluster.Custody.{
  ClaimStore, ClaimLaws, LostFinalizer, unprotected_claim-IsSettled,
}
use fluent_pvc_operator.Cluster.Consequences.{NamesClaim, IsSettled}
use fluent_pvc_operator.Cluster.Safety.{StillHolds}
use fluent_pvc_operator.Cluster.Processes.{Process, Reachable}
use fluent_pvc_operator.Cluster.Server.{Server, ServerLaws}
use fluent_pvc_operator.Controllers.Claims.Release.{MayRelease}
use fluent_pvc_operator.Lifecycle.Flags.{flags, holds}
use fluent_pvc_operator.Webhooks.Admission.{Codec}
use fluent_pvc_operator.Api.{FluentPvcBinding, is_condition_finalizer_job_succeeded}
use fluent_pvc_operator.Kube.{Library, LibraryLaws}
use mathlib.Core.List.{Memᴰ}
use fluent_pvc_operator.Prelude.{String, true, ◌≡◌, ◌⊎◌, inl, inr, List, refl, sym, subst}

module _ (l : Library) (sv : Server) (jobs : JobRecord sv) where
  -- A stored binding names the claim and lets it go; its newest version misses its pod, or it was
  -- ready, is out of use, and tells of a success of a job of its name, which succeeded.
  pub record IsExplained (s : sv.State) (u : String) : Type 0 where
    pub settled : StillHolds l sv s (λ b. NamesClaim u b × MayRelease l b) IsSettled
    pub reason :
        ((flags l settled.newest).pod_missing ≡ true)
        ⊎ jobs.succeeded_names s settled.newest.meta.name

module _ (codec : Codec) (l : Library) (sv : Server) (jobs : JobRecord sv) (lib : LibraryLaws l)
    (laws : ServerLaws sv) (job_laws : JobLaws sv jobs) where
  -- Of the operator's handlers as any number of processes whose calls are interleaved in any order,
  -- over a server that meets its laws (reads may be stale, processes may stop for good, others may
  -- rewrite what is not a status), keeps the name of each binding, and keeps a record of names that
  -- gains the name of a list of jobs whenever it shows just one job, which has succeeded: in every
  -- reachable state the record has the name of every stored version of a binding that is finalized
  -- with success.
  pub stored_success-succeeded_names :
      {s : sv.State} {ps : List Process}
      → Reachable codec l sv s ps
      → (u : String) (b : FluentPvcBinding) → Memᴰ b (sv.versions s u)
      → is_condition_finalizer_job_succeeded l b ≡ true
      → jobs.succeeded_names s b.meta.name
  stored_success-succeeded_names r u b m h =
      (Reachable-Backed codec l sv jobs lib laws job_laws r).0 u b m
        (unfold is_condition_finalizer_job_succeeded flags holds in h)

  settled_reason :
      {s : sv.State} {ps : List Process}
      → Reachable codec l sv s ps
      → (u : String) (b : FluentPvcBinding) → Memᴰ b (sv.versions s u)
      → IsSettled (flags l b)
      → ((flags l b).pod_missing ≡ true) ⊎ jobs.succeeded_names s b.meta.name
  unfolding is_condition_finalizer_job_succeeded flags holds
  settled_reason r u b m (inl missing) = inl missing
  settled_reason r u b m (inr (came, left, done)) =
      inr (stored_success-succeeded_names r u b m done)

  -- Of the operator's handlers as any number of processes whose calls are interleaved in any order,
  -- over a server that meets its laws (reads may be stale, processes may stop for good, others may
  -- rewrite what is not a status), keeps the name of each binding, keeps a record of names that
  -- gains the name of a list of jobs whenever it shows just one job, which has succeeded, and keeps
  -- the versions of each claim, whose operator's finalizer only an update by the operator may take
  -- off: in every reachable state, if some version of the claim of a UID had the finalizer and the
  -- newest has not, then a stored version of a binding names that claim and lets it go, and the
  -- newest version of this binding misses its pod, or was ready, is out of use and is finalized
  -- with success; and it misses its pod or the record has its name.
  pub unprotected_claim-IsExplained :
      (store : ClaimStore sv)
      → ClaimLaws l sv store
      → {s : sv.State} {ps : List Process} → Reachable codec l sv s ps
      → (u : String) → LostFinalizer l (store.claims s u)
      → IsExplained l sv jobs s u
  unprotected_claim-IsExplained store claim_laws r u h =
      let settled = unprotected_claim-IsSettled codec l sv lib laws store claim_laws r u h in
      record {
        settled = settled;
        reason =
            settled_reason r settled.read.meta.uid settled.newest
              (subst (λ bs. Memᴰ settled.newest bs) (sym settled.are_versions) (Memᴰ.head refl))
              settled.newest_holds;
      }
