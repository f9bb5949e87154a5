-- ===== src/Examples/ServerLaws.antt =====
-- The laws of the server of the examples.
use fluent_pvc_operator.Examples.Server.{
  Stored, respond, server, stored_versions, put_status, put_new, versions_of, read_newest, one,
  applied, four, run_job, binding_name, stamped, two, is_current, created_from, three, nothing,
  keep, claim_store,
}
use mathlib.Core.List.{Memᴰ}
use fluent_pvc_operator.Cluster.Duties.{shown, reveals}
use fluent_pvc_operator.Effect.{
  update_binding_status, create_binding, Call, Answer, get_binding, create_pvc, update_pvc,
  create_or_update_job,
}
use fluent_pvc_operator.Cluster.Server.{
  AreStored, same_status, Written, untouched, made, status_stored, ServerLaws,
}
use fluent_pvc_operator.Cluster.Custody.{
  Handled, ClaimLaws, as_tended, created, left_alone, updated,
}
use fluent_pvc_operator.Examples.Libraries.{library}
use fluent_pvc_operator.Kube.{PersistentVolumeClaim, Job, Outcome}
use fluent_pvc_operator.Prelude.{
  String, ◌≡◌, List, [], ◌∷◌, if◌then◌else◌, ◌==◌, Bool-cases, subst, inl, refl, inr, arith, eq_iff,
  ap, sym, ◌∙◌, Option, some, All, none,
}
use fluent_pvc_operator.Api.{FluentPvcBinding}

-- A law of an answered call follows from the law at the answer that the server computes.
pub at_answer :
    (P : (c : Call) → Answer c → Stored → Type 0) (s s' : Stored) (c : Call) (r : Answer c)
    → respond s c ≡ (r, s')
    → P c (respond s c).0 (respond s c).1
    → P c r s'
at_answer P s s' c r h p = subst (λ t. P c t.0 t.1) h p

shows_newest : (s : Stored) → AreStored server (s, []) (shown (read_newest s))
shows_newest nothing = tt
shows_newest (one b) = (Memᴰ.head refl, tt)
shows_newest (two c b) = (Memᴰ.head refl, tt)
shows_newest (three d c b) = (Memᴰ.head refl, tt)
shows_newest (applied d c b) = (Memᴰ.head refl, tt)
shows_newest (four e d c b) = (Memᴰ.head refl, tt)

shows_new :
    (s : Stored) (d : FluentPvcBinding)
    → AreStored server ((put_new s d).1, []) (shown (put_new s d).0)
shows_new nothing d = (Memᴰ.head refl, tt)
shows_new (one b) d = tt
shows_new (two c b) d = tt
shows_new (three e c b) d = tt
shows_new (applied e c b) d = tt
shows_new (four f e c b) d = tt

shows_status :
    (s : Stored) (d : FluentPvcBinding)
    → AreStored server ((put_status s d).1, []) (shown (put_status s d).0)
shows_status nothing d = tt
shows_status (one b) d = elim (Bool-cases (is_current "1" d)) [
  | inl e ↦ rw e (Memᴰ.head refl, tt)
  | inr e ↦ rw e tt
]
shows_status (two c b) d = elim (Bool-cases (is_current "2" d)) [
  | inl e ↦ rw e (Memᴰ.head refl, tt)
  | inr e ↦ rw e tt
]
shows_status (three e c b) d = tt
shows_status (applied e c b) d = elim (Bool-cases (is_current "3" d)) [
  | inl p ↦ rw p (Memᴰ.head refl, tt)
  | inr p ↦ rw p tt
]
shows_status (four f e c b) d = tt

shows_stored :
    (s : Stored) (c : Call) → AreStored server ((respond s c).1, []) (reveals c (respond s c).0)
shows_stored s (get_binding k) = shows_newest s
shows_stored s (create_binding d) = shows_new s d
shows_stored s (update_binding_status d) = shows_status s d
shows_stored s _ = tt

abbrev WrittenAt : Stored → (c : Call) → Stored → Type 0
WrittenAt s c s' = Written c (stored_versions s) (stored_versions s')

writes_status :
    (s : Stored) (d : FluentPvcBinding) → WrittenAt s (update_binding_status d) (put_status s d).1
writes_status nothing d = same_status (untouched refl)
writes_status (one b) d = elim (Bool-cases (is_current "1" d)) [
  | inl e ↦ rw e (
      status_stored d (stamped "1" b) (stamped "2" d) [] refl refl
        (ground (arith, eq_iff d.meta.uid "u4", eq_iff d.meta.resource_version "1")) refl refl)
  | inr e ↦ rw e (same_status (untouched refl))
]
writes_status (two c b) d = elim (Bool-cases (is_current "2" d)) [
  | inl e ↦ rw e (
      status_stored d (stamped "2" c) (stamped "3" d) (stamped "1" b ∷ []) refl refl
        (ground (arith, eq_iff d.meta.uid "u4", eq_iff d.meta.resource_version "2")) refl refl)
  | inr e ↦ rw e (same_status (untouched refl))
]
writes_status (three e c b) d = same_status (untouched refl)
writes_status (applied e c b) d = elim (Bool-cases (is_current "3" d)) [
  | inl p ↦ rw p (
      status_stored d (stamped "3" e) (stamped "4" d) (stamped "2" c ∷ stamped "1" b ∷ []) refl refl
        (ground (arith, eq_iff d.meta.uid "u4", eq_iff d.meta.resource_version "3")) refl refl)
  | inr p ↦ rw p (same_status (untouched refl))
]
writes_status (four f e c b) d = same_status (untouched refl)

writes_new : (s : Stored) (d : FluentPvcBinding) → WrittenAt s (create_binding d) (put_new s d).1
writes_new nothing d = same_status (made (stamped "1" (created_from d)) refl refl refl)
writes_new (one b) d = same_status (untouched refl)
writes_new (two c b) d = same_status (untouched refl)
writes_new (three e c b) d = same_status (untouched refl)
writes_new (applied e c b) d = same_status (untouched refl)
writes_new (four f e c b) d = same_status (untouched refl)

writes_job :
    (s : Stored) (j : Job) (f : Job → Outcome Job)
    → WrittenAt s (create_or_update_job j f) (run_job s)
writes_job nothing j f = same_status (untouched refl)
writes_job (one b) j f = same_status (untouched refl)
writes_job (two c b) j f = same_status (untouched refl)
writes_job (three e c b) j f = same_status (untouched refl)
writes_job (applied e c b) j f = same_status (untouched refl)
writes_job (four g e c b) j f = same_status (untouched refl)

writes_stored : (s : Stored) (c : Call) → WrittenAt s c (respond s c).1
writes_stored s (create_binding d) = writes_new s d
writes_stored s (update_binding_status d) = writes_status s d
writes_stored s (create_or_update_job j f) = writes_job s j f
writes_stored s _ = same_status (untouched refl)

writes_uid :
    (s s' : Stored) (c : Call) (u : String)
    → WrittenAt s c s'
    → Written c (versions_of s u) (versions_of s' u)
writes_uid s s' c u w = elim (Bool-cases (u == "u4")) [
  | inl e ↦ rw e w
  | inr e ↦ rw e (same_status (untouched refl))
]

pub Memᴰ-versions :
    (s : Stored) (u : String) (b : FluentPvcBinding)
    → Memᴰ b (versions_of s u)
    → (u ≡ "u4") × Memᴰ b (stored_versions s)
Memᴰ-versions s u b m = elim (Bool-cases (u == "u4")) [
  | inl e ↦ ((eq_iff u "u4").0 e, rw e at m)
  | inr e ↦ absurd (no_member (rw e at m))
]
  where
    no_member : Memᴰ b [] → ⊥
    no_member m = elim m [ ]

-- The version of a number.
abbrev version_at : List FluentPvcBinding → String → Option FluentPvcBinding
version_at [] v = none
version_at (b ∷ bs) v = if b.meta.resource_version == v then some b else version_at bs v

-- Each version is found by its number, and has the server's one UID and name.
abbrev pub IsFiled : Stored → FluentPvcBinding → Type 0
IsFiled s b =
    (version_at (stored_versions s) b.meta.resource_version ≡ some b)
    × (b.meta.uid ≡ "u4")
    × (b.meta.name ≡ binding_name)

All-Memᴰ :
    (P : FluentPvcBinding → Type 0) (bs : List FluentPvcBinding) (b : FluentPvcBinding)
    → All P bs
    → Memᴰ b bs
    → P b
All-Memᴰ P [] b h m = elim m [ ]
All-Memᴰ P (x ∷ bs) b h (Memᴰ.head e) = subst P (sym e) h.0
All-Memᴰ P (x ∷ bs) b h (Memᴰ.tail m) = All-Memᴰ P bs b h.1 m

All-IsFiled : (s : Stored) → All (IsFiled s) (stored_versions s)
All-IsFiled nothing = tt
All-IsFiled (one x) = ((refl, refl, refl), tt)
All-IsFiled (two y x) = ((refl, refl, refl), ((refl, refl, refl), tt))
All-IsFiled (three z y x) = ((refl, refl, refl), ((refl, refl, refl), ((refl, refl, refl), tt)))
All-IsFiled (applied z y x) = ((refl, refl, refl), ((refl, refl, refl), ((refl, refl, refl), tt)))
All-IsFiled (four w z y x) =
    ((refl, refl, refl), ((refl, refl, refl), ((refl, refl, refl), ((refl, refl, refl), tt))))

pub filed : (s : Stored) (b : FluentPvcBinding) → Memᴰ b (stored_versions s) → IsFiled s b
filed s b m = All-Memᴰ (IsFiled s) (stored_versions s) b (All-IsFiled s) m

identified_stored :
    (s : Stored) (b c : FluentPvcBinding)
    → IsFiled s b
    → IsFiled s c
    → b.meta.resource_version ≡ c.meta.resource_version
    → b ≡ c
identified_stored s b c p q v = some_inj (sym p.0 ∙ ap (version_at (stored_versions s)) v ∙ q.0)
  where
    some_inj : some b ≡ some c → b ≡ c
    some_inj e = cc

pub server_laws : ServerLaws server
server_laws = record {
  starts_empty = λ s u h. rw h (ground arith);
  shows = λ s s' c r h.
      at_answer (λ c r s'. AreStored server (s', []) (reveals c r)) s.0 s'.0 c r h.0
        (shows_stored s.0 c);
  writes = λ s s' c r u h.
      at_answer (λ c r s'. Written c (versions_of s.0 u) (versions_of s' u)) s.0 s'.0 c r h.0
        (writes_uid s.0 (respond s.0 c).1 c u (writes_stored s.0 c));
  others_write = λ s s' u h. untouched (ap (λ t. versions_of t.0 u) (sym h));
  keeps_status = λ s s' d r h. absurd (ground (arith, h.0));
  keeps_uid = λ s s' p r h. ground (arith, h.0);
  identified = λ s u b c m n v.
      identified_stored s.0 b c (filed s.0 b (Memᴰ-versions s.0 u b m).1)
        (filed s.0 c (Memᴰ-versions s.0 u c n).1) v.1;
  keyed = λ s u b m. (filed s.0 b (Memᴰ-versions s.0 u b m).1).1 ∙ sym (Memᴰ-versions s.0 u b m).0;
}

keeps_claims : (ps : List PersistentVolumeClaim) (c : Call) → Handled library c "u3" ps (keep ps c)
keeps_claims [] (create_pvc p) =
    as_tended (created (record p { meta = record (p.meta) { uid = "u3" } }) refl refl)
keeps_claims ps (update_pvc p) = elim (Bool-cases (p.meta.uid == "u3")) [
  | inl e ↦ rw e (updated p p refl ((eq_iff p.meta.uid "u3").0 e) refl)
  | inr e ↦ rw e (as_tended (left_alone refl))
]
keeps_claims ps _ = as_tended (left_alone refl)

pub claim_laws : ClaimLaws library server claim_store
claim_laws = record {
  starts_empty = λ s u h. rw h (ground arith);
  handles = λ s s' c r u h. elim (Bool-cases (u == "u3")) [
    | inl e ↦ rw e (
        subst (λ v. Handled library c v s.1 s'.1) (sym ((eq_iff u "u3").0 e))
          (subst (λ ps. Handled library c "u3" s.1 ps) h.1 (keeps_claims s.1 c)))
    | inr e ↦ rw e (as_tended (left_alone refl))
  ];
  others_tend = λ s s' u h. left_alone (ap (λ t. claim_store.claims t u) (sym h));
}
