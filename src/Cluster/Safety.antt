-- ===== src/Cluster/Safety.antt =====
-- The operator over one server, whatever the order of the calls.
use fluent_pvc_operator.Cluster.Care.{Handler-IsCareful}
use fluent_pvc_operator.Lifecycle.Flags.{flags, Flags}
use fluent_pvc_operator.Lifecycle.Steps.{IsOrdered}
use fluent_pvc_operator.Api.{FluentPvcBinding}
use fluent_pvc_operator.Cluster.Versions.{IsPath, Lasts, IsPath-IsOrdered, IsPath-Lasts}
use fluent_pvc_operator.Cluster.Invariant.{
  IsSound, Sound, Turn-Paid, owed-IsPath, Turn-processes, served-Grows, Rewritten-IsPath,
  processes-grow, Rewritten-grows, stored-Memᴰ,
}
use fluent_pvc_operator.Cluster.Server.{Server, ServerLaws}
use fluent_pvc_operator.Cluster.Processes.{
  Process, Reachable, start, begun, turned, moved, next_call,
}
use fluent_pvc_operator.Cluster.Duties.{IsCareful, Informed, Owes}
use fluent_pvc_operator.Webhooks.Admission.{Codec}
use fluent_pvc_operator.Effect.{Program, ret, Call, call}
use mathlib.Core.List.{Memᴰ}
use fluent_pvc_operator.Prelude.{String, ◌≡◌, List, [], ◌∷◌, All, subst, sym, refl, some}
use fluent_pvc_operator.Kube.{Library, LibraryLaws}

module _ (l : Library) (sv : Server) where
  -- The version that a process has read and the newest one, about which its flags still tell.
  pub record StillHolds (s : sv.State) (P : FluentPvcBinding → Type 0) (Q : Flags → Type 0)
      : Type 0 where
    pub read : FluentPvcBinding
    pub newest : FluentPvcBinding
    pub older : List FluentPvcBinding
    pub are_versions : sv.versions s read.meta.uid ≡ newest ∷ older
    pub read_stored : Memᴰ read (newest ∷ older)
    pub read_holds : P read
    pub newest_holds : Q (flags l newest)

owed_next :
    {A : Type 0} (l : Library) (seen : List FluentPvcBinding) (m : Program A)
    → IsCareful l seen m
    → (c : Call) → next_call m ≡ some c
    → Owes l seen c
owed_next l seen (ret a) h c e = cc
owed_next l seen (call d k) h c e = let same : d ≡ c = cc in subst (Owes l seen) same h.0

module _ (codec : Codec) (l : Library) (sv : Server) where
  module _ (lib : LibraryLaws l) (laws : ServerLaws sv) where
    pub Reachable-Sound :
        {s : sv.State} {ps : List Process} → Reachable codec l sv s ps → Sound codec l sv s ps
    Reachable-Sound {s} (start i) = record {
      paths = λ u. rw (laws.starts_empty s u i) tt;
      processes = tt;
    }
    Reachable-Sound (begun h r e) =
        let now = Reachable-Sound r in
        record {
          paths = now.paths;
          processes = (
            rw e (record { known = tt; careful = Handler-IsCareful codec l lib h }),
            now.processes,
          );
        }
    Reachable-Sound (turned {s} {s'} r t) =
        let now = Reachable-Sound r in
        let paid = Turn-Paid codec l sv t now.processes in
        record {
          paths = owed-IsPath codec l sv laws s s' paid now.paths;
          processes =
              Turn-processes codec l sv laws t
                (served-Grows codec l sv laws s s' paid.c paid.r paid.served) now.processes;
        }
    Reachable-Sound (moved {s} {s'} {ps} r o) =
        let now = Reachable-Sound r in
        record {
          paths = λ u. Rewritten-IsPath l (laws.others_write s s' u o) (now.paths u);
          processes =
              processes-grow codec l sv s s' ps
                (λ u b m. Rewritten-grows (laws.others_write s s' u o) m) now.processes;
        }

    process-IsSound :
        (s : sv.State) (ps : List Process) (p : Process)
        → All (IsSound codec l sv s) ps
        → Memᴰ p ps
        → IsSound codec l sv s p
    process-IsSound s [] p h m = elim m [ ]
    process-IsSound s (q ∷ ps) p h (Memᴰ.head e) = subst (IsSound codec l sv s) (sym e) h.0
    process-IsSound s (q ∷ ps) p h (Memᴰ.tail m) = process-IsSound s ps p h.1 m

    -- Of the operator's handlers as any number of processes whose calls are interleaved in any
    -- order, over a server that meets its laws (reads may be stale, processes may stop for good,
    -- others may rewrite what is not a status): in every reachable state the stored versions of
    -- each binding form a path of the diagram. The oldest has no condition, and the flags of every
    -- later one are those of the version before or a step further.
    pub stored_statuses-IsPath :
        {s : sv.State} {ps : List Process}
        → Reachable codec l sv s ps
        → (u : String) → IsPath l (sv.versions s u)
    stored_statuses-IsPath r u = (Reachable-Sound r).paths u

    -- Of the operator's handlers as any number of processes whose calls are interleaved in any
    -- order, over a server that meets its laws (reads may be stale, processes may stop for good,
    -- others may rewrite what is not a status): in every reachable state every stored version of a
    -- binding is ordered: out of use only if ready, applied only if out of use, and failed or
    -- succeeded only if applied.
    pub stored_version-IsOrdered :
        {s : sv.State} {ps : List Process}
        → Reachable codec l sv s ps
        → (u : String) (b : FluentPvcBinding) → Memᴰ b (sv.versions s u)
        → IsOrdered (flags l b)
    stored_version-IsOrdered r u b m =
        IsPath-IsOrdered l lib (sv.versions _ u) ((Reachable-Sound r).paths u) b m

    -- Of the operator's handlers as any number of processes whose calls are interleaved in any
    -- order, over a server that meets its laws (reads may be stale, processes may stop for good,
    -- others may rewrite what is not a status): in every reachable state, a binding that was ready,
    -- out of use, finalized with success, unknown or missing its pod in some stored version is so
    -- in the newest one.
    pub newest_version-Lasts :
        {s : sv.State} {ps : List Process}
        → Reachable codec l sv s ps
        → (u : String) (b newest : FluentPvcBinding) (older : List FluentPvcBinding)
        → sv.versions s u ≡ newest ∷ older
        → Memᴰ b (newest ∷ older)
        → Lasts (flags l b) (flags l newest)
    newest_version-Lasts r u b newest older e m =
        IsPath-Lasts l b newest older (subst (IsPath l) e ((Reachable-Sound r).paths u)) m

    split_versions :
        (bs : List FluentPvcBinding) (b : FluentPvcBinding)
        → Memᴰ b bs
        → (c : FluentPvcBinding) × (cs : List FluentPvcBinding) × (bs ≡ c ∷ cs)
    split_versions [] b m = elim m [ ]
    split_versions (c ∷ cs) b m = (c, cs, refl)

    -- What a stored version tells, the newest one tells too if it lasts.
    pub stored-StillHolds :
        {s : sv.State} {ps : List Process}
        → Reachable codec l sv s ps
        → (P : FluentPvcBinding → Type 0) (Q : Flags → Type 0) (b : FluentPvcBinding)
        → Memᴰ b (sv.versions s b.meta.uid)
        → P b
        → ((b : FluentPvcBinding) (g : Flags)
            → P b
            → IsOrdered (flags l b)
            → Lasts (flags l b) g
            → Q g)
        → StillHolds l sv s P Q
    stored-StillHolds {s} r P Q b stored h lasts =
        let (c, cs, e) = split_versions (sv.versions s b.meta.uid) b stored in
        let here = subst (λ bs. Memᴰ b bs) e stored in
        record {
          read = b;
          newest = c;
          older = cs;
          are_versions = e;
          read_stored = here;
          read_holds = h;
          newest_holds =
              lasts b (flags l c) h (stored_version-IsOrdered r b.meta.uid b stored)
                (newest_version-Lasts r b.meta.uid b c cs e here);
        }

    -- What was read, holds of the newest version if it lasts.
    pub still_holds :
        {s : sv.State} {ps : List Process}
        → Reachable codec l sv s ps
        → (p : Process) → Memᴰ p ps
        → (P : FluentPvcBinding → Type 0) (Q : Flags → Type 0) → Informed p.seen P
        → ((b : FluentPvcBinding) (g : Flags)
            → P b
            → IsOrdered (flags l b)
            → Lasts (flags l b) g
            → Q g)
        → StillHolds l sv s P Q
    still_holds {s} {ps} r p m P Q (b, n, h) lasts =
        let sound = process-IsSound s ps p (Reachable-Sound r).processes m in
        stored-StillHolds r P Q b (stored-Memᴰ codec l sv s p.seen b sound.known n) h lasts

    -- What a process has paid for its next call.
    pub owed_call :
        {s : sv.State} {ps : List Process}
        → Reachable codec l sv s ps
        → (p : Process) → Memᴰ p ps
        → (c : Call) → next_call p.rest ≡ some c
        → Owes l p.seen c
    owed_call {s} {ps} r p m c e =
        owed_next l p.seen p.rest (process-IsSound s ps p (Reachable-Sound r).processes m).careful c
          e
