-- ===== src/Cluster/Invariant.antt =====
-- What holds of the server and the processes whatever the order of their calls.
use fluent_pvc_operator.Lifecycle.Histories.{flags-status}
use fluent_pvc_operator.Lifecycle.Flags.{flags}
use fluent_pvc_operator.Cluster.Processes.{Process, Turn, next, later}
use fluent_pvc_operator.Cluster.Duties.{Onward, IsCareful, Owes, Relies, reveals}
use fluent_pvc_operator.Cluster.Versions.{IsPath}
use fluent_pvc_operator.Webhooks.Admission.{Codec}
use fluent_pvc_operator.Cluster.Server.{
  Rewritten, Written, untouched, same_status, Server, made, status_stored, AreStored, ServerLaws,
  rewritten,
}
use mathlib.Core.List.{Memᴰ}
use fluent_pvc_operator.Prelude.{
  String, ◌≡◌, refl, inl, inr, List, [], ◌∷◌, ◌++◌, All, subst, sym, ◌∙◌, ap, All-append,
}
use fluent_pvc_operator.Kube.{Library, SameVersion, success, failure}
use fluent_pvc_operator.Api.{FluentPvcBinding}
use fluent_pvc_operator.Effect.{
  Call, Answer, update_binding, update_binding_status, update_pvc, Program, call,
}

module _ (l : Library) where
  pub Rewritten-IsPath :
      {old new : List FluentPvcBinding} → Rewritten old new → IsPath l old → IsPath l new
  Rewritten-IsPath (untouched e) h = rw e h
  Rewritten-IsPath (made b o c e) h = rw e (c, tt)
  Rewritten-IsPath (rewritten b r rest o k e) h = rw e (inr (flags-status l b r k), rw o at h)

  Written-IsPath :
      {c : Call} {old new : List FluentPvcBinding}
      → Written c old new
      → ((d b : FluentPvcBinding) (rest : List FluentPvcBinding)
          → c ≡ update_binding_status d
          → old ≡ b ∷ rest
          → SameVersion d.meta b.meta
          → Onward l b d)
      → IsPath l old
      → IsPath l new
  Written-IsPath (same_status r) owed h = Rewritten-IsPath r h
  Written-IsPath (status_stored d b r rest q o v k e) owed h =
      rw e (onward (flags-status l d r k) (owed d b rest q o v), rw o at h)
    where
      onward : flags l r ≡ flags l d → Onward l b d → Onward l b r
      onward same (inl s) = inl (rw same s)
      onward same (inr f) = inr (same ∙ f)

pub Rewritten-grows :
    {old new : List FluentPvcBinding} {b : FluentPvcBinding}
    → Rewritten old new
    → Memᴰ b old
    → Memᴰ b new
Rewritten-grows (untouched e) m = rw e m
Rewritten-grows (made c o k e) m = elim (rw o at m) [ ]
Rewritten-grows (rewritten c r rest o k e) m = rw e (Memᴰ.tail (rw o at m))

Written-grows :
    {c : Call} {old new : List FluentPvcBinding} {b : FluentPvcBinding}
    → Written c old new
    → Memᴰ b old
    → Memᴰ b new
Written-grows (same_status r) m = Rewritten-grows r m
Written-grows (status_stored d c r rest q o v k e) m = rw e (Memᴰ.tail (rw o at m))

module _ (codec : Codec) (l : Library) (sv : Server) where
  pub record IsSound (s : sv.State) (p : Process) : Type 0 where
    pub known : AreStored sv s p.seen
    pub careful : IsCareful l p.seen p.rest

  pub record Sound (s : sv.State) (ps : List Process) : Type 0 where
    pub paths : (u : String) → IsPath l (sv.versions s u)
    pub processes : All (IsSound s) ps

  abbrev Grows : sv.State → sv.State → Type 0
  Grows s s' =
      (u : String) (b : FluentPvcBinding) → Memᴰ b (sv.versions s u) → Memᴰ b (sv.versions s' u)

  AreStored-Grows :
      (s s' : sv.State) (bs : List FluentPvcBinding)
      → Grows s s'
      → AreStored sv s bs
      → AreStored sv s' bs
  AreStored-Grows s s' [] g h = tt
  AreStored-Grows s s' (b ∷ bs) g h = (g b.meta.uid b h.0, AreStored-Grows s s' bs g h.1)

  pub processes-grow :
      (s s' : sv.State) (ps : List Process) → Grows s s' → All (IsSound s) ps → All (IsSound s') ps
  processes-grow s s' [] g h = tt
  processes-grow s s' (p ∷ ps) g h = (
    record { known = AreStored-Grows s s' p.seen g (h.0).known; careful = (h.0).careful },
    processes-grow s s' ps g h.1,
  )

  AreStored-append :
      (s : sv.State) (bs cs : List FluentPvcBinding)
      → AreStored sv s bs
      → AreStored sv s cs
      → AreStored sv s (bs ++ cs)
  AreStored-append s bs cs = All-append (λ b. Memᴰ b (sv.versions s b.meta.uid)) bs cs

  pub stored-Memᴰ :
      (s : sv.State) (bs : List FluentPvcBinding) (b : FluentPvcBinding)
      → AreStored sv s bs
      → Memᴰ b bs
      → Memᴰ b (sv.versions s b.meta.uid)
  stored-Memᴰ s [] b h m = elim m [ ]
  stored-Memᴰ s (x ∷ bs) b h (Memᴰ.head e) =
      subst (λ y. Memᴰ y (sv.versions s y.meta.uid)) (sym e) h.0
  stored-Memᴰ s (x ∷ bs) b h (Memᴰ.tail m) = stored-Memᴰ s bs b h.1 m

  -- The call that a turn makes, and what its process has paid for it.
  pub record Paid (s s' : sv.State) : Type 0 where
    pub c : Call
    pub r : Answer c
    pub seen : List FluentPvcBinding
    pub served : sv.serves s c r s'
    pub known : AreStored sv s seen
    pub owed : Owes l seen c

  pub IsCareful-call :
      (p : Process) (c : Call) (k : Answer c → Program (Unit {0}))
      → IsCareful l p.seen p.rest
      → p.rest ≡ call c k
      → IsCareful l p.seen (call c k)
  IsCareful-call p c k h e = subst (λ m. IsCareful l p.seen m) e h

  pub Turn-Paid :
      {s s' : sv.State} {ps qs : List Process}
      → Turn codec l sv s s' ps qs
      → All (IsSound s) ps
      → Paid s s'
  Turn-Paid (next {p = p} c k r e served q) h = record {
    c = c;
    r = r;
    seen = p.seen;
    served = served;
    known = (h.0).known;
    owed = (IsCareful-call p c k (h.0).careful e).0;
  }
  Turn-Paid (later t) h = Turn-Paid t h.1

  module _ (laws : ServerLaws sv) where
    pub served-Grows : (s s' : sv.State) (c : Call) (r : Answer c) → sv.serves s c r s' → Grows s s'
    served-Grows s s' c r served u b m = Written-grows (laws.writes s s' c r u served) m

    -- The version that a call names is the one that its process has read.
    same_version :
        (s : sv.State) (seen : List FluentPvcBinding) (b c : FluentPvcBinding) (u : String)
        → AreStored sv s seen
        → Memᴰ b seen
        → Memᴰ c (sv.versions s u)
        → SameVersion b.meta c.meta
        → b ≡ c
    same_version s seen b c u known m n v =
        laws.identified s u b c
          (subst (λ w. Memᴰ b (sv.versions s w)) (v.0 ∙ laws.keyed s u c n)
            (stored-Memᴰ s seen b known m))
          n v

    pub owed-IsPath :
        (s s' : sv.State)
        → Paid s s'
        → ((u : String) → IsPath l (sv.versions s u))
        → (u : String) → IsPath l (sv.versions s' u)
    owed-IsPath s s' paid paths u =
        Written-IsPath l (laws.writes s s' paid.c paid.r u paid.served)
          (λ d b rest q o v.
            let (base, m, (w, onward)) = subst (λ c. Owes l paid.seen c) q paid.owed in
            subst (λ x. Onward l x d)
              (same_version s paid.seen base b u paid.known m
                (subst (λ bs. Memᴰ b bs) (sym o) (Memᴰ.head refl)) (sym w.0 ∙ v.0, sym w.1 ∙ v.1))
              onward)
          (paths u)

    relied :
        (s s' : sv.State) (seen : List FluentPvcBinding) (c : Call) (r : Answer c)
        → AreStored sv s seen
        → Owes l seen c
        → sv.serves s c r s'
        → Relies c r
    relied s s' seen (update_binding d) (success r) known (base, m, (w, k)) served =
        let (b, n, v, same) = laws.keeps_status s s' d r served in
        same
        ∙ sym (
            ap (λ x. x.status)
              (same_version s seen base b d.meta.uid known m n (sym w.0 ∙ v.0, sym w.1 ∙ v.1)))
        ∙ sym k
    relied s s' seen (update_binding d) (failure e) known o served = tt
    relied s s' seen (update_pvc p) (success r) known o served = laws.keeps_uid s s' p r served
    relied s s' seen (update_pvc p) (failure e) known o served = tt
    relied s s' seen _ r known o served = tt

    pub Turn-processes :
        {s s' : sv.State} {ps qs : List Process}
        → Turn codec l sv s s' ps qs
        → Grows s s'
        → All (IsSound s) ps
        → All (IsSound s') qs
    Turn-processes {s} {s'} (next {p = p} {ps = ps} c k r e served q) g h = (
      rw q (record {
        known =
            AreStored-append s' (reveals c r) p.seen (laws.shows s s' c r served)
              (AreStored-Grows s s' p.seen g (h.0).known);
        careful =
            let now = IsCareful-call p c k (h.0).careful e in
            now.1 r (relied s s' p.seen c r (h.0).known now.0 served);
      }),
      processes-grow s s' ps g h.1,
    )
    Turn-processes {s} {s'} (later {p = p} t) g h = (
      record { known = AreStored-Grows s s' p.seen g (h.0).known; careful = (h.0).careful },
      Turn-processes t g h.1,
    )
