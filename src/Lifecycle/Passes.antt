-- ===== src/Lifecycle/Passes.antt =====
-- The first pass of the sort in `resetPhase` of api/v1alpha1/helpers.go.
use fluent_pvc_operator.Prelude.{
  ℕ, suc, zero, ◌++◌, All-append, ◌≡◌, refl, inl, inr, List, [], ◌∷◌, All, Bool-cases,
}
use fluent_pvc_operator.Kube.{Condition}
use fluent_pvc_operator.Api.{is_newer, gap_pass, swap_pairs, split_at}

-- What holds of all conditions, holds of all after the pass, and the other way round.
swap_pairs-All :
    (P : Condition → Type 0) (cs ds : List Condition)
    → All P cs × All P ds
    → All P (swap_pairs cs ds).0 × All P (swap_pairs cs ds).1
unfolding swap_pairs
swap_pairs-All P [] ds h = h
swap_pairs-All P (c ∷ cs) [] h = h
swap_pairs-All P (c ∷ cs) (d ∷ ds) h =
    let rest = swap_pairs-All P cs ds ((h.0).1, (h.1).1) in
    elim (Bool-cases (is_newer d c)) [
      | inl e ↦ rw e (((h.1).0, rest.0), ((h.0).0, rest.1))
      | inr e ↦ rw e (((h.0).0, rest.0), ((h.1).0, rest.1))
    ]

All-swap_pairs :
    (P : Condition → Type 0) (cs ds : List Condition)
    → All P (swap_pairs cs ds).0 × All P (swap_pairs cs ds).1
    → All P cs × All P ds
unfolding swap_pairs
All-swap_pairs P [] ds h = h
All-swap_pairs P (c ∷ cs) [] h = h
All-swap_pairs P (c ∷ cs) (d ∷ ds) h = elim (Bool-cases (is_newer d c)) [
  | inl e ↦
      let (x, y) = rw e at h in
      let rest = All-swap_pairs P cs ds (x.1, y.1) in ((y.0, rest.0), (x.0, rest.1))
  | inr e ↦
      let (x, y) = rw e at h in
      let rest = All-swap_pairs P cs ds (x.1, y.1) in ((x.0, rest.0), (y.0, rest.1))
]

split_at-All :
    (P : Condition → Type 0) (n : ℕ) (cs : List Condition)
    → All P cs
    → All P (split_at n cs).0 × All P (split_at n cs).1
unfolding split_at
split_at-All P zero cs h = (tt, h)
split_at-All P (suc n) [] h = (tt, tt)
split_at-All P (suc n) (c ∷ cs) h = let rest = split_at-All P n cs h.1 in ((h.0, rest.0), rest.1)

All-split_at :
    (P : Condition → Type 0) (n : ℕ) (cs : List Condition)
    → All P (split_at n cs).0
    → All P (split_at n cs).1
    → All P cs
unfolding split_at
All-split_at P zero cs h k = k
All-split_at P (suc n) [] h k = tt
All-split_at P (suc n) (c ∷ cs) h k = (h.0, All-split_at P n cs h.1 k)

All-parts :
    (P : Condition → Type 0) (cs ds : List Condition) → All P (cs ++ ds) → All P cs × All P ds
All-parts P [] ds h = (tt, h)
All-parts P (c ∷ cs) ds h = let rest = All-parts P cs ds h.1 in ((h.0, rest.0), rest.1)

pub gap_pass-All : (P : Condition → Type 0) (cs : List Condition) → All P cs → All P (gap_pass cs)
unfolding gap_pass
gap_pass-All P cs h =
    let halves = split_at-All P 6 cs h in
    let pairs = swap_pairs-All P (split_at 6 cs).0 (split_at 6 cs).1 halves in
    All-append P _ _ pairs.0 pairs.1

pub All-gap_pass : (P : Condition → Type 0) (cs : List Condition) → All P (gap_pass cs) → All P cs
unfolding gap_pass
All-gap_pass P cs h =
    let halves = All-swap_pairs P (split_at 6 cs).0 (split_at 6 cs).1 (All-parts P _ _ h) in
    All-split_at P 6 cs halves.0 halves.1

no_conditions : (cs : List Condition) → All (λ _. ⊥) cs → cs ≡ []
no_conditions [] h = refl
no_conditions (c ∷ cs) h = absurd h.0

pub gap_pass-nil : (cs : List Condition) → gap_pass cs ≡ [] → cs ≡ []
gap_pass-nil cs e = no_conditions cs (All-gap_pass (λ _. ⊥) cs (rw e tt))
