-- ===== src/Lifecycle/Latest.antt =====
-- The phase after a setter of api/v1alpha1/helpers.go.
use fluent_pvc_operator.Lifecycle.Flags.{undated, holds}
use fluent_pvc_operator.Lifecycle.Phases.{AllTrue, reset_phase-IsNewest, All-AllTrue}
use fluent_pvc_operator.Api.{true_conditions, FluentPvcBinding, set_condition_true, set_condition}
use fluent_pvc_operator.Prelude.{
  String, true, false, ◌≡◌, some, List, [], ◌∷◌, ◌==◌, any, All, arith, eq_iff, eq_refl, ℕ, Bool,
  if◌then◌else◌, subst, sym, ◌<◌, Bool-cases, inl, inr, ◌≤◌,
}
use fluent_pvc_operator.Kube.{
  Condition, condition_of, has_unique_types, Library, LibraryLaws, status_is_true, merged_condition,
  condition_true,
}

-- In a map by type every condition is the one that is found by its type.
abbrev FoundIn : List Condition → Condition → Type 0
FoundIn cs c = condition_of cs c.type ≡ some c

absent-All :
    (t : String) (cs : List Condition)
    → any (λ d. d.type == t) cs ≡ false
    → All (λ d. (d.type == t) ≡ false) cs
absent-All t [] h = tt
absent-All t (c ∷ cs) h = (ground arith, absent-All t cs (ground arith))

FoundIn-cons :
    (x : Condition) (cs ds : List Condition)
    → All (λ d. (d.type == x.type) ≡ false) ds
    → All (FoundIn cs) ds
    → All (FoundIn (x ∷ cs)) ds
unfolding condition_of
FoundIn-cons x cs [] h k = tt
FoundIn-cons x cs (d ∷ ds) h k = (
  ground (arith, eq_iff x.type d.type, eq_iff d.type x.type, h.0, k.0),
  FoundIn-cons x cs ds h.1 k.1,
)

has_unique_types-FoundIn : (cs : List Condition) → has_unique_types cs ≡ true → All (FoundIn cs) cs
unfolding has_unique_types
has_unique_types-FoundIn [] h = tt
has_unique_types-FoundIn (c ∷ cs) h = (
  unfold condition_of in (rw (eq_refl c.type)),
  FoundIn-cons c cs cs (absent-All c.type cs (ground arith))
      (has_unique_types-FoundIn cs (ground arith)),
)

-- What holds of every condition that holds, holds of the one that is found by its type.
AllTrue-found :
    (Q : Condition → Type 0) (cs : List Condition) (t : String) (c : Condition)
    → AllTrue Q cs
    → condition_of cs t ≡ some c
    → status_is_true c.status ≡ true
    → Q c
unfolding true_conditions condition_of
AllTrue-found Q [] t c h e s = cc
AllTrue-found Q (d ∷ ds) t c h e s = elim (Bool-cases (d.type == t)) [
  | inl same ↦ let q : d ≡ c = ground arith in found q h
  | inr other ↦ AllTrue-found Q ds t c (rest (status_is_true d.status) h) (rw other at e) s
]
  where
    rest :
        (b : Bool)
        → All Q (if b then d ∷ true_conditions ds else true_conditions ds)
        → All Q (true_conditions ds)
    rest true k = k.1
    rest false k = k

    found :
        d ≡ c
        → All Q (if status_is_true d.status then d ∷ true_conditions ds else true_conditions ds)
        → Q c
    found p k =
        (subst
            (λ x.
              All Q (if status_is_true x.status then x ∷ true_conditions ds else true_conditions ds)
              → Q c)
            (sym p) (λ k'. (rw s at k').0))
          k

module _ (l : Library) (laws : LibraryLaws l) (now : ℕ) (b : FluentPvcBinding)
    (t reason message : String) where
  abbrev set_list : List Condition
  set_list =
      l.set_status_condition now b.status.conditions (undated t condition_true reason message)

  -- The condition as it is stored: a condition that did not hold is dated by the clock.
  abbrev stored : Condition
  stored =
      merged_condition now (condition_of b.status.conditions t)
        (undated t condition_true reason message)

  stored-found : condition_of set_list t ≡ some stored
  stored-found = ground (
    arith,
    laws.lookup-set now b.status.conditions (undated t condition_true reason message) t,
    eq_refl t,
  )

  stored_now :
      holds l b t ≡ false
      → (stored.last_transition_time ≡ now) × (status_is_true stored.status ≡ true)
  unfolding holds merged_condition
  stored_now h = ground (arith, laws.is_true-lookup b.status.conditions t)

  -- A condition of another type was there before.
  other-old :
      (c : Condition)
      → condition_of set_list c.type ≡ some c
      → (t == c.type) ≡ false
      → condition_of b.status.conditions c.type ≡ some c
  other-old c h e = ground (
    arith,
    laws.lookup-set now b.status.conditions (undated t condition_true reason message) c.type,
  )

  -- Of a binding whose conditions have different types and were all dated before now: after a
  -- condition that did not hold is set to true, the phase is that condition.
  pub phase-set_condition_true :
      has_unique_types b.status.conditions ≡ true
      → ((u : String) (c : Condition)
          → condition_of b.status.conditions u ≡ some c
          → c.last_transition_time < now)
      → holds l b t ≡ false
      → (set_condition_true l now b t reason message).status.phase ≡ t
  unfolding set_condition_true set_condition
  phase-set_condition_true unique older new =
      elim (reset_phase-IsNewest (FoundIn set_list)
        (record b { status = record (b.status) { conditions = set_list } })
        (All-AllTrue (FoundIn set_list) set_list (
          has_unique_types-FoundIn set_list (
            laws.unique-set now b.status.conditions (undated t condition_true reason message)
              unique)))) [
                | inl e ↦ absurd (
                    AllTrue-found (λ _. ⊥) set_list t stored (rw e.0 tt) stored-found
                      (stored_now new).1)
                | inr e ↦ elim (Bool-cases (t == (e.0).type)) [
                  | inl same ↦ ground (arith, eq_iff t (e.0).type, e.1)
                  | inr other ↦ absurd (
                      omega (
                        arith,
                        older (e.0).type e.0 (other-old e.0 (e.2).chosen other),
                        AllTrue-found (λ d. d.last_transition_time ≤ (e.0).last_transition_time)
                            set_list t stored (e.2).none_newer stored-found (stored_now new).1,
                        (stored_now new).0,
                      ))
                ]
              ]
