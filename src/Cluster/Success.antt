-- ===== src/Cluster/Success.antt =====
-- The success of a finalizer job that the stored bindings tell of, whatever the order of the calls.
use fluent_pvc_operator.Cluster.Honesty.{Handler-IsHonest}
use fluent_pvc_operator.Cluster.Jobs.{JobRecord, JobLaws, Rewritten-HadSuccess, Written-success}
use fluent_pvc_operator.Cluster.Evidence.{Insight, IsHonest, Justified, Rests, succeeded, proves}
use fluent_pvc_operator.Cluster.Safety.{Reachable-Sound}
use fluent_pvc_operator.Cluster.Invariant.{IsSound, served-Grows, stored-Memᴰ, Rewritten-grows}
use fluent_pvc_operator.Cluster.Processes.{
  Process, Turn, next, later, Reachable, start, begun, turned, moved,
}
use fluent_pvc_operator.Cluster.Server.{Server, ServerLaws, AreStored}
use fluent_pvc_operator.Webhooks.Admission.{Codec}
use fluent_pvc_operator.Effect.{Call, Answer, Program, call}
use fluent_pvc_operator.Api.{FluentPvcBinding}
use fluent_pvc_operator.Kube.{Library, LibraryLaws}
use mathlib.Core.List.{Memᴰ}
use fluent_pvc_operator.Prelude.{
  String, true, ◌≡◌, inl, inr, List, [], ◌∷◌, ◌++◌, All, subst, sym, ◌∙◌, All-append,
}

module _ (codec : Codec) (l : Library) (sv : Server) (jobs : JobRecord sv) where
  -- What a process has learned, the server has shown.
  pub record IsBacked (s : sv.State) (p : Process) : Type 0 where
    names : List String
    shown : All (jobs.succeeded_names s) names
    honest : IsHonest l (record { bindings = p.seen; names = names }) p.rest

  -- A version that tells of the success has the name of a job that had succeeded.
  abbrev pub TellsTruth : sv.State → Type 0
  TellsTruth s =
      (u : String) (b : FluentPvcBinding)
      → Memᴰ b (sv.versions s u)
      → succeeded l b ≡ true
      → jobs.succeeded_names s b.meta.name

  -- The call that a turn makes, and what it rests on.
  record Backing (s s' : sv.State) : Type 0 where
    c : Call
    r : Answer c
    insight : Insight
    served : sv.serves s c r s'
    stored : AreStored sv s insight.bindings
    shown : All (jobs.succeeded_names s) insight.names
    justified : Justified l insight c

  IsHonest-call :
      (k : Insight) (m : Program (Unit {0})) (c : Call) (f : Answer c → Program (Unit {0}))
      → IsHonest l k m
      → m ≡ call c f
      → IsHonest l k (call c f)
  IsHonest-call k m c f h e = subst (λ n. IsHonest l k n) e h

  Turn-Backing :
      {s s' : sv.State} {ps qs : List Process}
      → Turn codec l sv s s' ps qs
      → All (IsSound codec l sv s) ps
      → All (IsBacked s) ps
      → Backing s s'
  Turn-Backing (next {p = p} c k r e served q) h b = record {
    c = c;
    r = r;
    insight = record { bindings = p.seen; names = (b.0).names };
    served = served;
    stored = (h.0).known;
    shown = (b.0).shown;
    justified = (IsHonest-call _ p.rest c k (b.0).honest e).0;
  }
  Turn-Backing (later t) h b = Turn-Backing t h.1 b.1

  names-grow :
      (s s' : sv.State) (names : List String)
      → ((name : String) → jobs.succeeded_names s name → jobs.succeeded_names s' name)
      → All (jobs.succeeded_names s) names
      → All (jobs.succeeded_names s') names
  names-grow s s' [] g h = tt
  names-grow s s' (n ∷ names) g h = (g n h.0, names-grow s s' names g h.1)

  IsBacked-grow :
      (s s' : sv.State) (ps : List Process)
      → ((name : String) → jobs.succeeded_names s name → jobs.succeeded_names s' name)
      → All (IsBacked s) ps
      → All (IsBacked s') ps
  IsBacked-grow s s' [] g h = tt
  IsBacked-grow s s' (p ∷ ps) g h = (
    record {
      names = (h.0).names;
      shown = names-grow s s' (h.0).names g (h.0).shown;
      honest = (h.0).honest;
    },
    IsBacked-grow s s' ps g h.1,
  )

  module _ (lib : LibraryLaws l) (laws : ServerLaws sv) (job_laws : JobLaws sv jobs) where
    Turn-IsBacked :
        {s s' : sv.State} {ps qs : List Process}
        → Turn codec l sv s s' ps qs
        → ((name : String) → jobs.succeeded_names s name → jobs.succeeded_names s' name)
        → All (IsBacked s) ps
        → All (IsBacked s') qs
    Turn-IsBacked {s} {s'} (next {p = p} {ps = ps} c k r e served q) g h = (
      rw q (record {
        names = proves c r ++ (h.0).names;
        shown =
            All-append (jobs.succeeded_names s') (proves c r) (h.0).names
              (job_laws.shows s s' c r served) (names-grow s s' (h.0).names g (h.0).shown);
        honest = (IsHonest-call _ p.rest c k (h.0).honest e).1 r tt;
      }),
      IsBacked-grow s s' ps g h.1,
    )
    Turn-IsBacked {s} {s'} (later {p = p} {ps = ps} t) g h =
        ((IsBacked-grow s s' (p ∷ []) g (h.0, tt)).0, Turn-IsBacked t g h.1)

    All-names :
        (s : sv.State) (names : List String) (name : String)
        → All (jobs.succeeded_names s) names
        → Memᴰ name names
        → jobs.succeeded_names s name
    All-names s [] name h m = elim m [ ]
    All-names s (n ∷ names) name h (Memᴰ.head e) = subst (jobs.succeeded_names s) (sym e) h.0
    All-names s (n ∷ names) name h (Memᴰ.tail m) = All-names s names name h.1 m

    -- What a stored success rests on, tells of a job of the name of that binding.
    rests-name :
        (s : sv.State) (k : Insight) (d : FluentPvcBinding)
        → TellsTruth s
        → AreStored sv s k.bindings
        → All (jobs.succeeded_names s) k.names
        → Rests l k d
        → (b : FluentPvcBinding) × Memᴰ b (sv.versions s d.meta.uid)
          × jobs.succeeded_names s b.meta.name
    rests-name s k d truth stored names (b, m, same, why) =
        let here = stored-Memᴰ codec l sv s k.bindings b stored m in
        (
          b,
          subst (λ u. Memᴰ b (sv.versions s u)) (sym same) here,
          elim why [
            | inl h ↦ truth b.meta.uid b here h
            | inr n ↦ All-names s k.names b.meta.name names n
          ],
        )

    served-TellsTruth : (s s' : sv.State) → Backing s s' → TellsTruth s → TellsTruth s'
    served-TellsTruth s s' now truth u b m success =
        elim (Written-success l lib success (laws.writes s s' now.c now.r u now.served) m) [
          | inl (a, n, h) ↦ to_version a n (truth u a n h)
          | inr (d, a, q, n, v, h) ↦
              let justified = subst (λ c. Justified l now.insight c) q now.justified in
              let (k, i, named) =
                rests-name s now.insight d truth now.stored now.shown (justified h) in
              to_version k (subst (λ w. Memᴰ k (sv.versions s w)) (v.0 ∙ laws.keyed s u a n) i)
                named
        ]
      where
        to_version :
            (a : FluentPvcBinding)
            → Memᴰ a (sv.versions s u)
            → jobs.succeeded_names s a.meta.name
            → jobs.succeeded_names s' b.meta.name
        to_version a n h =
            subst (jobs.succeeded_names s')
              (job_laws.named s' u a b
                (served-Grows codec l sv laws s s' now.c now.r now.served u a n) m)
              (job_laws.keeps s s' now.c now.r a.meta.name now.served h)

    pub Reachable-Backed :
        {s : sv.State} {ps : List Process}
        → Reachable codec l sv s ps
        → TellsTruth s × All (IsBacked s) ps
    Reachable-Backed {s} (start i) = (λ u b m h. elim (rw (laws.starts_empty s u i) at m) [ ], tt)
    Reachable-Backed (begun h r e) =
        let now = Reachable-Backed r in
        (
          now.0,
          (
            rw e (record { names = []; shown = tt; honest = Handler-IsHonest codec l lib h }),
            now.1,
          ),
        )
    Reachable-Backed (turned {s} {s'} r t) =
        let now = Reachable-Backed r in
        let backing = Turn-Backing t (Reachable-Sound codec l sv lib laws r).processes now.1 in
        (
          served-TellsTruth s s' backing now.0,
          Turn-IsBacked t (λ name h. job_laws.keeps s s' backing.c backing.r name backing.served h)
              now.1,
        )
    Reachable-Backed (moved {s} {s'} {ps} r o) =
        let now = Reachable-Backed r in
        (
          λ u b m h.
              let (a, n, k) = Rewritten-HadSuccess l lib h (laws.others_write s s' u o) m in
              subst (jobs.succeeded_names s')
                (job_laws.named s' u a b (Rewritten-grows (laws.others_write s s' u o) n) m)
                (job_laws.others_keep s s' a.meta.name o (now.0 u a n k)),
          IsBacked-grow s s' ps (λ name h. job_laws.others_keep s s' name o h) now.1,
        )
