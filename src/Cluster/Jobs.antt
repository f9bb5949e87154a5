-- ===== src/Cluster/Jobs.antt =====
-- The jobs that the server has shown, and the versions of a binding that tell of a success.
use fluent_pvc_operator.Cluster.Evidence.{succeeded, proves}
use fluent_pvc_operator.Cluster.Server.{
  Server, Rewritten, Written, untouched, made, rewritten, same_status, status_stored,
}
use fluent_pvc_operator.Lifecycle.Histories.{flags-created, flags-status}
use fluent_pvc_operator.Effect.{Call, Answer, update_binding_status}
use fluent_pvc_operator.Api.{FluentPvcBinding}
use fluent_pvc_operator.Kube.{Library, LibraryLaws, SameVersion}
use mathlib.Core.List.{Memᴰ}
use fluent_pvc_operator.Prelude.{
  String, true, ◌≡◌, refl, ◌⊎◌, inl, inr, List, [], ◌∷◌, All, subst, sym, ◌∙◌, ap,
}

-- The names by which the server has shown one job, which had succeeded.
pub record JobRecord (sv : Server) : Type 1 where
  pub succeeded_names : sv.State → String → Type 0

-- The record is kept, and a binding keeps its name.
pub record JobLaws (sv : Server) (jobs : JobRecord sv) : Type 0 where
  pub shows :
      (s s' : sv.State) (c : Call) (r : Answer c)
      → sv.serves s c r s'
      → All (jobs.succeeded_names s') (proves c r)
  pub keeps :
      (s s' : sv.State) (c : Call) (r : Answer c) (name : String)
      → sv.serves s c r s'
      → jobs.succeeded_names s name
      → jobs.succeeded_names s' name
  pub others_keep :
      (s s' : sv.State) (name : String)
      → sv.others s s'
      → jobs.succeeded_names s name
      → jobs.succeeded_names s' name
  pub named :
      (s : sv.State) (u : String) (b c : FluentPvcBinding)
      → Memᴰ b (sv.versions s u)
      → Memᴰ c (sv.versions s u)
      → b.meta.name ≡ c.meta.name

module _ (l : Library) where
  abbrev pub HadSuccess : List FluentPvcBinding → Type 0
  HadSuccess old = (a : FluentPvcBinding) × Memᴰ a old × (succeeded l a ≡ true)

  -- The call stores the success onto one of the versions.
  abbrev pub StoresSuccess : Call → List FluentPvcBinding → Type 0
  StoresSuccess c old =
      (d a : FluentPvcBinding) × (c ≡ update_binding_status d)
      × Memᴰ a old
      × SameVersion d.meta a.meta
      × (succeeded l d ≡ true)

  in_singleton : {a b : FluentPvcBinding} → Memᴰ b (a ∷ []) → b ≡ a
  in_singleton (Memᴰ.head e) = e
  in_singleton (Memᴰ.tail m) = elim m [ ]

  succeeded-status :
      (b c : FluentPvcBinding) → c.status ≡ b.status → succeeded l c ≡ true → succeeded l b ≡ true
  succeeded-status b c k h = ap (λ f. f.finalizer_job_succeeded) (sym (flags-status l b c k)) ∙ h

  module _ (laws : LibraryLaws l) {b : FluentPvcBinding} (success : succeeded l b ≡ true) where
    pub Rewritten-HadSuccess :
        {old new : List FluentPvcBinding} → Rewritten old new → Memᴰ b new → HadSuccess old
    Rewritten-HadSuccess (untouched e) m = (b, subst (λ bs. Memᴰ b bs) e m, success)
    Rewritten-HadSuccess (made a o k e) m =
        absurd (fresh (in_singleton (subst (λ bs. Memᴰ b bs) e m)))
      where
        fresh : b ≡ a → ⊥
        fresh same =
            let none_yet = flags-created l laws a k in
            let had = subst (λ x. succeeded l x ≡ true) same success in cc
    Rewritten-HadSuccess (rewritten a r rest o k e) m =
        subst HadSuccess (sym o) (of_version (subst (λ bs. Memᴰ b bs) e m))
      where
        of_version : Memᴰ b (r ∷ a ∷ rest) → HadSuccess (a ∷ rest)
        of_version (Memᴰ.head same) =
            (a, Memᴰ.head refl, succeeded-status a b (ap (λ x. x.status) same ∙ k) success)
        of_version (Memᴰ.tail n) = (b, n, success)

    pub Written-success :
        {c : Call} {old new : List FluentPvcBinding}
        → Written c old new
        → Memᴰ b new
        → HadSuccess old ⊎ StoresSuccess c old
    Written-success (same_status r) m = inl (Rewritten-HadSuccess r m)
    Written-success {c} {old} (status_stored d a r rest q o v k e) m =
        of_version (subst (λ bs. Memᴰ b bs) e m)
      where
        of_version : Memᴰ b (r ∷ a ∷ rest) → HadSuccess old ⊎ StoresSuccess c old
        of_version (Memᴰ.head same) = inr (
          d,
          a,
          q,
          subst (λ bs. Memᴰ a bs) (sym o) (Memᴰ.head refl),
          v,
          succeeded-status d b (ap (λ x. x.status) same ∙ k) success,
        )
        of_version (Memᴰ.tail n) = inl (b, subst (λ bs. Memᴰ b bs) (sym o) n, success)
