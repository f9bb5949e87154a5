-- ===== src/Injection/Lookup.antt =====
-- Lookup by name around the replacing loop of utils/pod/injection.go.
use fluent_pvc_operator.Prelude.{
  String, ◌≡◌, refl, Bool, true, false, ◌||◌, Option, none, some, List, [], ◌∷◌, ◌==◌,
  if◌then◌else◌, eq_iff, eq_refl, arith,
}
use fluent_pvc_operator.Injection.{replace_loop}

module _ {ℓ} {A : Type ℓ} (name : A → String) where
  -- The first element of a name, which is the only one where names are unique.
  unfoldable pub find : String → List A → Option A
  find n [] = none
  find n (x ∷ xs) = if name x == n then some x else find n xs

  -- An element of that name exists.
  unfoldable pub has_name : String → List A → Bool
  has_name n [] = false
  has_name n (x ∷ xs) = name x == n || has_name n xs

  find-replace_loop_found :
      (item : A) (n : String) (xs : List A)
      → find n (replace_loop name item true xs)
        ≡ (if name item == n then (if has_name n xs then some item else none) else find n xs)
  unfolding find replace_loop has_name
  find-replace_loop_found item n [] = ground arith
  find-replace_loop_found item n (x ∷ xs) = ground (
    arith,
    find-replace_loop_found item n xs,
    eq_iff (name x) (name item),
    eq_iff (name x) n,
    eq_iff (name item) n,
  )

  -- After an element is injected, the first element of its name is the injected one, and the first
  -- element of every other name is as before.
  pub find-replace_loop :
      (item : A) (n : String) (xs : List A)
      → find n (replace_loop name item false xs) ≡ (if name item == n then some item else find n xs)
  unfolding find replace_loop has_name
  find-replace_loop item n [] = ground arith
  find-replace_loop item n (x ∷ xs) = ground (
    arith,
    find-replace_loop item n xs,
    find-replace_loop_found item n xs,
    eq_iff (name x) (name item),
    eq_iff (name x) n,
    eq_iff (name item) n,
  )

  replace_loop-twice_found :
      (item : A) (xs : List A)
      → replace_loop name item true (replace_loop name item true xs)
        ≡ replace_loop name item true xs
  unfolding replace_loop
  replace_loop-twice_found item [] = refl
  replace_loop-twice_found item (x ∷ xs) =
      ground
        (arith, replace_loop-twice_found item xs, eq_refl (name item), eq_iff (name x) (name item))

  -- To inject an element twice is to inject it once.
  pub replace_loop-twice :
      (item : A) (xs : List A)
      → replace_loop name item false (replace_loop name item false xs)
        ≡ replace_loop name item false xs
  unfolding replace_loop
  replace_loop-twice item [] = ground (arith, eq_refl (name item))
  replace_loop-twice item (x ∷ xs) = ground (
    arith,
    replace_loop-twice item xs,
    replace_loop-twice_found item xs,
    eq_refl (name item),
    eq_iff (name x) (name item),
  )
