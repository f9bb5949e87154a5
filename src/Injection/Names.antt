-- ===== src/Injection/Names.antt =====
-- The names of the elements around the replacing loop of utils/pod/injection.go.
use fluent_pvc_operator.Prelude.{
  String, ◌≡◌, refl, true, false, List, [], ◌∷◌, ◌++◌, map, if◌then◌else◌, eq_iff, arith,
}
use fluent_pvc_operator.Injection.{replace_loop}
use fluent_pvc_operator.Injection.Lookup.{has_name}

module _ {ℓ} {A : Type ℓ} (name : A → String) (item : A) where
  map-replace_loop_found : (xs : List A) → map name (replace_loop name item true xs) ≡ map name xs
  unfolding replace_loop
  map-replace_loop_found [] = refl
  map-replace_loop_found (x ∷ xs) =
      ground (arith, map-replace_loop_found xs, eq_iff (name x) (name item))

  -- After an element is injected, the names are those before, in their order, with its name last if
  -- it was not among them.
  pub map-replace_loop :
      (xs : List A)
      → map name (replace_loop name item false xs)
        ≡ (if has_name name (name item) xs then map name xs else map name xs ++ name item ∷ [])
  unfolding replace_loop has_name
  map-replace_loop [] = refl
  map-replace_loop (x ∷ xs) =
      ground (arith, map-replace_loop xs, map-replace_loop_found xs, eq_iff (name x) (name item))
