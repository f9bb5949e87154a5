-- ===== src/Injection/Variables.antt =====
-- Lookup by name around the loop of `InjectOrReplaceEnv`, utils/pod/injection.go.
use fluent_pvc_operator.Prelude.{
  String, ◌≡◌, refl, true, false, Option, none, some, List, [], ◌∷◌, ◌==◌, if◌then◌else◌, eq_iff,
  arith,
}
use fluent_pvc_operator.Injection.{insert_loop}

-- The last element of a name: of several variables of one name a container gets the last.
module _ {ℓ} {A : Type ℓ} (name : A → String) where
  unfoldable pub find_last : String → List A → Option A
  find_last n [] = none
  find_last n (x ∷ xs) = elim (find_last n xs) [
    | some y ↦ some y
    | none ↦ if name x == n then some x else none
  ]

  abbrev pub or_item : Option A → A → Option A
  or_item (some y) item = some y
  or_item none item = some item

  find_last-insert_loop_found :
      (item : A) (n : String) (xs : List A)
      → find_last n (insert_loop name item true xs) ≡ find_last n xs
  unfolding find_last insert_loop
  find_last-insert_loop_found item n [] = refl
  find_last-insert_loop_found item n (x ∷ xs) = ground (
    arith,
    find_last-insert_loop_found item n xs,
    eq_iff (name x) (name item),
    eq_iff (name x) n,
    eq_iff (name item) n,
  )

  -- After a variable is injected, the last variable of its name is the one that was there before,
  -- if there was one, and otherwise the injected one; the last variable of every other name is as
  -- before.
  pub find_last-insert_loop :
      (item : A) (n : String) (xs : List A)
      → find_last n (insert_loop name item false xs)
        ≡ (if name item == n then or_item (find_last n xs) item else find_last n xs)
  unfolding find_last insert_loop
  find_last-insert_loop item n [] = ground arith
  find_last-insert_loop item n (x ∷ xs) = ground (
    arith,
    find_last-insert_loop item n xs,
    find_last-insert_loop_found item n xs,
    eq_iff (name x) (name item),
    eq_iff (name x) n,
    eq_iff (name item) n,
  )
