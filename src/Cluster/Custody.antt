-- ===== src/Cluster/Custody.antt =====
-- The operator's finalizer on the claims that the server stores, whatever the order of the calls.
use fluent_pvc_operator.Cluster.Safety.{StillHolds, stored-StillHolds, Reachable-Sound}
use fluent_pvc_operator.Cluster.Duties.{Owes}
use fluent_pvc_operator.Cluster.Processes.{Process, Reachable, start, begun, turned, moved}
use fluent_pvc_operator.Cluster.Invariant.{
  Paid, served-Grows, stored-Memᴰ, Turn-Paid, Rewritten-grows,
}
use fluent_pvc_operator.Controllers.Claims.Release.{MayRelease}
use fluent_pvc_operator.Cluster.Consequences.{NamesClaim, IsSettled, release-IsSettled}
use fluent_pvc_operator.Webhooks.Admission.{Codec}
use fluent_pvc_operator.Cluster.Server.{Server, ServerLaws}
use fluent_pvc_operator.Effect.{Call, Answer, update_pvc}
use fluent_pvc_operator.Api.{pvc_finalizer_name, FluentPvcBinding}
use fluent_pvc_operator.Kube.{Library, PersistentVolumeClaim, LibraryLaws}
use mathlib.Core.List.{Memᴰ}
use fluent_pvc_operator.Prelude.{
  String, Bool, true, false, ◌≡◌, List, [], ◌∷◌, subst, ap, sym, ◌∙◌, arith,
}

module _ (l : Library) where
  abbrev pub is_protected_claim : PersistentVolumeClaim → Bool
  is_protected_claim p = l.contains_finalizer p.meta pvc_finalizer_name

  -- What may happen to a claim's versions without the operator's update: nothing, its creation, or
  -- a new version that keeps the operator's finalizer if the claim had it.
  pub data Tended (old new : List PersistentVolumeClaim) : Type 0 where
    left_alone : new ≡ old → Tended old new
    created : (p : PersistentVolumeClaim) → old ≡ [] → new ≡ p ∷ [] → Tended old new
    tended :
        (p q : PersistentVolumeClaim) (rest : List PersistentVolumeClaim)
        → old ≡ p ∷ rest
        → (is_protected_claim p ≡ true → is_protected_claim q ≡ true)
        → new ≡ q ∷ p ∷ rest
        → Tended old new

  -- What a call of the operator may do to the versions of the claim of a UID.
  pub data Handled (c : Call) (u : String) (old new : List PersistentVolumeClaim) : Type 0 where
    as_tended : Tended old new → Handled c u old new
    updated :
        (p q : PersistentVolumeClaim)
        → c ≡ update_pvc p
        → p.meta.uid ≡ u
        → new ≡ q ∷ old
        → Handled c u old new

  -- A version had the finalizer, and the newest has not.
  pub record LostFinalizer (versions : List PersistentVolumeClaim) : Type 0 where
    pub had : PersistentVolumeClaim
    pub newest : PersistentVolumeClaim
    pub older : List PersistentVolumeClaim
    pub are_versions : versions ≡ newest ∷ older
    pub had_stored : Memᴰ had (newest ∷ older)
    pub had_finalizer : is_protected_claim had ≡ true
    pub newest_without : is_protected_claim newest ≡ false

  -- It was an older version that had it.
  LostFinalizer-tail :
      (q : PersistentVolumeClaim) (rest : List PersistentVolumeClaim)
      → LostFinalizer (q ∷ rest)
      → (p : PersistentVolumeClaim) × Memᴰ p rest
        × (is_protected_claim p ≡ true)
        × (is_protected_claim q ≡ false)
  LostFinalizer-tail q rest h =
      split (subst (λ ps. Memᴰ h.had ps) (sym h.are_versions) h.had_stored)
    where
      without : is_protected_claim q ≡ false
      without =
          let e = h.are_versions in
          let same : h.newest ≡ q = cc in ap is_protected_claim (sym same) ∙ h.newest_without

      split :
          Memᴰ h.had (q ∷ rest)
          → (p : PersistentVolumeClaim) × Memᴰ p rest
            × (is_protected_claim p ≡ true)
            × (is_protected_claim q ≡ false)
      split (Memᴰ.head e) =
          let has = h.had_finalizer in let same = ap is_protected_claim e in cc without
      split (Memᴰ.tail m) = (h.had, m, h.had_finalizer, without)

  Tended-LostFinalizer :
      {old new : List PersistentVolumeClaim}
      → Tended old new
      → LostFinalizer new
      → LostFinalizer old
  Tended-LostFinalizer (left_alone e) h = subst LostFinalizer e h
  Tended-LostFinalizer (created p o e) h =
      elim (LostFinalizer-tail p [] (subst LostFinalizer e h)).1 [ ]
  Tended-LostFinalizer (tended p q rest o k e) h =
      let (had, m, has, without) = LostFinalizer-tail q (p ∷ rest) (subst LostFinalizer e h) in
      record {
        had = had;
        newest = p;
        older = rest;
        are_versions = o;
        had_stored = m;
        had_finalizer = has;
        newest_without = ground (arith, k, without);
      }

-- The versions of the claim of a UID, the newest first.
pub record ClaimStore (sv : Server) : Type 0 where
  pub claims : sv.State → String → List PersistentVolumeClaim

pub record ClaimLaws (l : Library) (sv : Server) (store : ClaimStore sv) : Type 0 where
  pub starts_empty : (s : sv.State) (u : String) → sv.initial s → store.claims s u ≡ []
  pub handles :
      (s s' : sv.State) (c : Call) (r : Answer c) (u : String)
      → sv.serves s c r s'
      → Handled l c u (store.claims s u) (store.claims s' u)
  pub others_tend :
      (s s' : sv.State) (u : String)
      → sv.others s s'
      → Tended l (store.claims s u) (store.claims s' u)

module _ (codec : Codec) (l : Library) (sv : Server) where
  -- A stored version of a binding names the claim of a UID and lets it go.
  abbrev pub Freed : sv.State → String → Type 0
  Freed s u =
      (b : FluentPvcBinding) × Memᴰ b (sv.versions s b.meta.uid) × NamesClaim u b × MayRelease l b

  module _ (lib : LibraryLaws l) (laws : ServerLaws sv) (store : ClaimStore sv)
      (claim_laws : ClaimLaws l sv store) where
    -- A call pays for the finalizer that it takes off.
    Handled-Freed :
        {s s' : sv.State} (paid : Paid codec l sv s s') (u : String)
        {old new : List PersistentVolumeClaim}
        → Handled l paid.c u old new
        → (LostFinalizer l old → Freed s' u)
        → LostFinalizer l new
        → Freed s' u
    Handled-Freed paid u (as_tended t) before h = before (Tended-LostFinalizer l t h)
    Handled-Freed {s} {s'} paid u (updated p q e k n) before h =
        let (b, m, (named, may)) = subst (λ c. Owes l paid.seen c) e paid.owed in
        (
          b,
          served-Grows codec l sv laws s s' paid.c paid.r paid.served b.meta.uid b
              (stored-Memᴰ codec l sv s paid.seen b paid.known m),
          sym named ∙ k,
          may,
        )

    pub lost-Freed :
        {s : sv.State} {ps : List Process}
        → Reachable codec l sv s ps
        → (u : String) → LostFinalizer l (store.claims s u)
        → Freed s u
    lost-Freed {s} (start i) u h =
        let empty = claim_laws.starts_empty s u i in let e = h.are_versions in cc
    lost-Freed (begun k r e) u h = lost-Freed r u h
    lost-Freed (turned {s} {s'} r t) u h =
        let paid = Turn-Paid codec l sv t (Reachable-Sound codec l sv lib laws r).processes in
        Handled-Freed paid u (claim_laws.handles s s' paid.c paid.r u paid.served)
          (λ before. grown s s' paid (lost-Freed r u before)) h
      where
        grown : (s s' : sv.State) → Paid codec l sv s s' → Freed s u → Freed s' u
        grown s s' paid (b, m, named, may) = (
          b,
          served-Grows codec l sv laws s s' paid.c paid.r paid.served b.meta.uid b m,
          named,
          may,
        )
    lost-Freed (moved {s} {s'} r o) u h =
        let (b, m, named, may) =
          lost-Freed r u (Tended-LostFinalizer l (claim_laws.others_tend s s' u o) h) in
        (b, Rewritten-grows (laws.others_write s s' b.meta.uid o) m, named, may)

    -- Of the operator's handlers as any number of processes whose calls are interleaved in any
    -- order, over a server that meets its laws (reads may be stale, processes may stop for good,
    -- others may rewrite what is not a status) and that keeps the versions of each claim, whose
    -- operator's finalizer only an update by the operator may take off: in every reachable state,
    -- if some version of the claim of a UID had the finalizer and the newest has not, then a stored
    -- version of a binding names that claim and lets it go, and the newest version of this binding
    -- misses its pod, or was ready, is out of use and is finalized with success.
    pub unprotected_claim-IsSettled :
        {s : sv.State} {ps : List Process}
        → Reachable codec l sv s ps
        → (u : String) → LostFinalizer l (store.claims s u)
        → StillHolds l sv s (λ b. NamesClaim u b × MayRelease l b) IsSettled
    unprotected_claim-IsSettled r u h =
        let (b, m, named, may) = lost-Freed r u h in
        stored-StillHolds codec l sv lib laws r (λ b. NamesClaim u b × MayRelease l b) IsSettled b m
          (named, may) (λ c g k. release-IsSettled l c g k.1)
