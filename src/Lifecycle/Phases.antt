-- ===== src/Lifecycle/Phases.antt =====
-- `resetPhase` of api/v1alpha1/helpers.go.
use mathlib.Core.List.{Memᴰ}
use fluent_pvc_operator.Prelude.{
  ◌≤◌, ◌≢◌, String, ◌≡◌, refl, inl, inr, Option, none, some, List, [], ◌∷◌, All, arith,
  if◌then◌else◌, Bool-cases, ◌⊎◌, ◌∙◌, ap, true, false,
}
use fluent_pvc_operator.Kube.{Condition, status_is_true}
use fluent_pvc_operator.Lifecycle.Passes.{gap_pass-All, All-gap_pass, gap_pass-nil}
use fluent_pvc_operator.Api.{
  FluentPvcBinding, is_newer, insert_newest, sort_newest, gap_pass, set_phase_latest,
  true_conditions, reset_phase, reset_phase_of, phase_pending,
}

-- The newest of a condition and a list, the first of equally new ones.
unfoldable pub newest : Condition → List Condition → Condition
newest c [] = c
newest c (d ∷ ds) = newest (if is_newer d c then d else c) ds

-- The newest condition that holds.
abbrev pub newest_of : List Condition → Option Condition
unfolding newest
newest_of [] = none
newest_of (c ∷ cs) = some (newest c cs)

head-insert_newest :
    (c d : Condition) (ds : List Condition)
    → (t : List Condition) × (insert_newest c (d ∷ ds) ≡ (if is_newer c d then c else d) ∷ t)
unfolding insert_newest
head-insert_newest c d ds = elim (Bool-cases (is_newer c d)) [
  | inl h ↦ (d ∷ ds, rw h)
  | inr h ↦ (insert_newest c ds, rw h)
]

head-sort_newest :
    (c : Condition) (sorted cs : List Condition)
    → (t : List Condition) × (sort_newest (c ∷ sorted) cs ≡ newest c cs ∷ t)
unfolding sort_newest newest
head-sort_newest c sorted [] = (sorted, refl)
head-sort_newest c sorted (d ∷ ds) =
    let (t, e) = head-insert_newest d c sorted in
    let (u, f) = head-sort_newest (if is_newer d c then d else c) t ds in (u, rw e f)

abbrev pub phase_of : Option Condition → String
phase_of none = phase_pending
phase_of (some c) = c.type

phase-sort_newest :
    (b : FluentPvcBinding) (cs : List Condition)
    → cs ≢ []
    → (set_phase_latest b (sort_newest [] cs)).status.phase ≡ phase_of (newest_of cs)
unfolding sort_newest insert_newest newest
phase-sort_newest b [] full = absurd (full refl)
phase-sort_newest b (c ∷ cs) full = let (t, e) = head-sort_newest c [] cs in rw e

phase-reset_phase_of :
    (b : FluentPvcBinding) (cs : List Condition)
    → (reset_phase_of b cs).status.phase ≡ phase_of (newest_of (gap_pass cs))
unfolding reset_phase_of newest_of gap_pass newest
phase-reset_phase_of b [] = refl
phase-reset_phase_of b (c ∷ cs) =
    phase-sort_newest b (gap_pass (c ∷ cs)) (λ e. let f = gap_pass-nil (c ∷ cs) e in cc)

phase-reset_phase :
    (b : FluentPvcBinding)
    → (reset_phase b).status.phase
      ≡ phase_of (newest_of (gap_pass (true_conditions b.status.conditions)))
unfolding reset_phase
phase-reset_phase b = phase-reset_phase_of b (true_conditions b.status.conditions)

-- The newest is one of the list and none is newer.
newest-All :
    (P : Condition → Type 0) (c : Condition) (cs : List Condition)
    → P c
    → All P cs
    → P (newest c cs)
unfolding newest
newest-All P c [] h k = h
newest-All P c (d ∷ ds) h k = elim (Bool-cases (is_newer d c)) [
  | inl e ↦ rw e (newest-All P d ds k.0 k.1)
  | inr e ↦ rw e (newest-All P c ds h k.1)
]

newest-le_head :
    (c : Condition) (cs : List Condition)
    → c.last_transition_time ≤ (newest c cs).last_transition_time
unfolding newest
newest-le_head c [] = omega arith
newest-le_head c (d ∷ ds) = ground (arith, newest-le_head (if is_newer d c then d else c) ds)

newest-le :
    (c : Condition) (cs : List Condition)
    → All (λ d. d.last_transition_time ≤ (newest c cs).last_transition_time) cs
unfolding newest
newest-le c [] = tt
newest-le c (d ∷ ds) = (
  ground (arith, newest-le_head (if is_newer d c then d else c) ds),
  newest-le (if is_newer d c then d else c) ds,
)

-- What holds of the conditions of a list that hold.
abbrev pub AllTrue : (Condition → Type 0) → List Condition → Type 0
AllTrue P cs = All P (true_conditions cs)

-- The phase is that of a condition c that satisfies `P`, and no other that holds is newer.
pub record IsNewest (P : Condition → Type 0) (cs : List Condition) (c : Condition) : Type 0 where
  pub chosen : P c
  pub none_newer : AllTrue (λ d. d.last_transition_time ≤ c.last_transition_time) cs

newest_of-IsNewest :
    (P : Condition → Type 0) (cs : List Condition)
    → All P cs
    → ((cs ≡ []) × (newest_of cs ≡ none))
      ⊎ ((c : Condition) × (newest_of cs ≡ some c)
          × P c
          × All (λ d. d.last_transition_time ≤ c.last_transition_time) cs)
unfolding newest
newest_of-IsNewest P [] h = inl (refl, refl)
newest_of-IsNewest P (c ∷ cs) h =
    inr (newest c cs, refl, newest-All P c cs h.0 h.1, (newest-le_head c cs, newest-le c cs))

-- With any property that the holding conditions share.
pub reset_phase-IsNewest :
    (P : Condition → Type 0) (b : FluentPvcBinding)
    → AllTrue P b.status.conditions
    → ((true_conditions b.status.conditions ≡ []) × ((reset_phase b).status.phase ≡ phase_pending))
      ⊎ ((c : Condition) × ((reset_phase b).status.phase ≡ c.type)
          × IsNewest P b.status.conditions c)
reset_phase-IsNewest P b h =
    let cs = true_conditions b.status.conditions in
    elim (newest_of-IsNewest P (gap_pass cs) (gap_pass-All P cs h)) [
      | inl e ↦ inl (gap_pass-nil cs e.0, phase-reset_phase b ∙ ap phase_of e.1)
      | inr e ↦ inr (
        e.0,
        phase-reset_phase b ∙ ap phase_of e.1,
        record {
          chosen = e.2;
          none_newer =
              All-gap_pass (λ d. d.last_transition_time ≤ (e.0).last_transition_time) cs e.3;
        },
      )
    ]

pub All-AllTrue : (P : Condition → Type 0) (cs : List Condition) → All P cs → AllTrue P cs
unfolding true_conditions
All-AllTrue P [] h = tt
All-AllTrue P (c ∷ cs) h = elim (Bool-cases (status_is_true c.status)) [
  | inl e ↦ rw e (h.0, All-AllTrue P cs h.1)
  | inr e ↦ rw e (All-AllTrue P cs h.1)
]

-- A condition of the list that holds.
abbrev pub HoldsIn : List Condition → Condition → Type 0
HoldsIn cs c = Memᴰ c cs × (status_is_true c.status ≡ true)

All-weaken :
    (P Q : Condition → Type 0) (cs : List Condition)
    → ((c : Condition) → P c → Q c)
    → All P cs
    → All Q cs
All-weaken P Q [] f h = tt
All-weaken P Q (c ∷ cs) f h = (f c h.0, All-weaken P Q cs f h.1)

true_conditions-HoldsIn : (cs : List Condition) → AllTrue (HoldsIn cs) cs
unfolding true_conditions
true_conditions-HoldsIn [] = tt
true_conditions-HoldsIn (c ∷ cs) =
    let rest =
      All-weaken (HoldsIn cs) (HoldsIn (c ∷ cs)) (true_conditions cs) (λ d h. (Memᴰ.tail h.0, h.1))
        (true_conditions-HoldsIn cs) in
    elim (Bool-cases (status_is_true c.status)) [
      | inl e ↦ rw e ((Memᴰ.head refl, e), rest)
      | inr e ↦ rw e rest
    ]

no_true_conditions :
    (cs : List Condition) → true_conditions cs ≡ [] → All (λ c. status_is_true c.status ≡ false) cs
unfolding true_conditions
no_true_conditions [] h = tt
no_true_conditions (c ∷ cs) h = elim (Bool-cases (status_is_true c.status)) [
  | inl e ↦ absurd (cons≢nil (rw e at h))
  | inr e ↦ (e, no_true_conditions cs (rw e at h))
]
  where
    cons≢nil : {d : Condition} {ds : List Condition} → d ∷ ds ≡ [] → ⊥
    cons≢nil h = cc

AllTrue-All :
    (P : Condition → Type 0) (cs : List Condition)
    → AllTrue P cs
    → All (λ d. (status_is_true d.status ≡ false) ⊎ P d) cs
unfolding true_conditions
AllTrue-All P [] h = tt
AllTrue-All P (c ∷ cs) h = elim (Bool-cases (status_is_true c.status)) [
  | inl e ↦ let k = rw e at h in (inr k.0, AllTrue-All P cs k.1)
  | inr e ↦ (inl e, AllTrue-All P cs (rw e at h))
]

-- `c` is a condition of the list that holds, and every other one that holds is as old or older.
pub record IsLatest (cs : List Condition) (c : Condition) : Type 0 where
  pub listed : Memᴰ c cs
  pub true_now : status_is_true c.status ≡ true
  pub none_newer :
      All
        (λ d. (status_is_true d.status ≡ false) ⊎ (d.last_transition_time ≤ c.last_transition_time))
        cs

abbrev pub HasNewestPhase : FluentPvcBinding → Type 0
HasNewestPhase b =
    (All (λ c. status_is_true c.status ≡ false) b.status.conditions
      × ((reset_phase b).status.phase ≡ phase_pending))
    ⊎ ((c : Condition) × ((reset_phase b).status.phase ≡ c.type) × IsLatest b.status.conditions c)

-- After `resetPhase` the phase is pending if no condition of the binding holds; otherwise it is the
-- type of a condition of the binding that holds, and every condition of the binding is false or at
-- most as new.
pub reset_phase_lem : (b : FluentPvcBinding) → HasNewestPhase b
reset_phase_lem b =
    elim (reset_phase-IsNewest (HoldsIn b.status.conditions) b
      (true_conditions-HoldsIn b.status.conditions)) [
        | inl e ↦ inl (no_true_conditions b.status.conditions e.0, e.1)
        | inr e ↦ inr (
          e.0,
          e.1,
          record {
            listed = ((e.2).chosen).0;
            true_now = ((e.2).chosen).1;
            none_newer =
                AllTrue-All (λ d. d.last_transition_time ≤ (e.0).last_transition_time)
                  b.status.conditions (e.2).none_newer;
          },
        )
      ]
