-- ===== src/Examples/Libraries.antt =====
-- Concrete functions in place of the libraries, which meet the documented behaviour.
use fluent_pvc_operator.Api.{group_version}
use fluent_pvc_operator.Prelude.{
  ℕ, String, Bool, true, false, ◌||◌, ◌≡◌, refl, Option, none, some, List, [], ◌∷◌, ◌==◌, any,
  eq_iff, arith, if◌then◌else◌, is_some,
}
use fluent_pvc_operator.Kube.{
  Library, LibraryLaws, OwnerReference, Condition, ok, condition_of, condition_holds,
  merged_condition, has_unique_types,
}

abbrev pub contains : List String → String → Bool
contains fs f = any (λ g. g == f) fs

unfoldable pub without : List String → String → List String
without [] f = []
without (g ∷ gs) f = let rest = without gs f in if g == f then rest else g ∷ rest

unfoldable pub put_condition : ℕ → List Condition → Condition → List Condition
unfolding merged_condition
put_condition now [] c = merged_condition now none c ∷ []
put_condition now (d ∷ ds) c =
    if d.type == c.type then merged_condition now (some d) c ∷ ds else d ∷ put_condition now ds c

abbrev pub controller_in : List OwnerReference → Option OwnerReference
controller_in [] = none
controller_in (o ∷ os) = if is_some o.controller then some o else controller_in os

abbrev pub is_controller_uid : String → Option OwnerReference → Bool
is_controller_uid uid none = false
is_controller_uid uid (some o) = o.uid == uid

unfoldable pub library : Library
unfolding without put_condition condition_of
library = record {
  is_not_found = λ e. e.reason == "NotFound";
  is_conflict = λ e. e.reason == "Conflict";
  contains_finalizer = λ m f. contains m.finalizers f;
  add_finalizer =
      λ m f. if contains m.finalizers f then m else record m { finalizers = f ∷ m.finalizers };
  remove_finalizer = λ m f. record m { finalizers = without m.finalizers f };
  is_controlled_by = λ m o. is_controller_uid o.uid (controller_in m.owner_references);
  api_version_of = λ kind. group_version;
  get_controller_of = λ m. controller_in m.owner_references;
  set_controller_reference = λ kind o m. ok (record m {
    owner_references =
        record {
          api_version = group_version;
          kind = kind;
          name = o.name;
          uid = o.uid;
          controller = some "true";
        }
        ∷ m.owner_references;
  });
  is_status_condition_true = λ cs t. condition_holds (condition_of cs t);
  set_status_condition = put_condition;
}

contains-without :
    (fs : List String) (f g : String)
    → contains (without fs f) g ≡ (if f == g then false else contains fs g)
unfolding without
contains-without [] f g = ground arith
contains-without (h ∷ hs) f g =
    ground (arith, contains-without hs f g, eq_iff h f, eq_iff h g, eq_iff f g)

condition_of-put_condition :
    (now : ℕ) (cs : List Condition) (c : Condition) (t : String)
    → condition_of (put_condition now cs c) t ≡ (
        if c.type == t
        then some (merged_condition now (condition_of cs t) c)
        else condition_of cs t)
unfolding condition_of put_condition merged_condition
condition_of-put_condition now [] c t = ground arith
condition_of-put_condition now (d ∷ ds) c t = ground (
  arith,
  condition_of-put_condition now ds c t,
  eq_iff d.type c.type,
  eq_iff d.type t,
  eq_iff c.type t,
)

any-put_condition :
    (now : ℕ) (cs : List Condition) (c : Condition) (t : String)
    → any (λ d. d.type == t) (put_condition now cs c) ≡ (any (λ d. d.type == t) cs || c.type == t)
unfolding put_condition merged_condition
any-put_condition now [] c t = ground arith
any-put_condition now (d ∷ ds) c t =
    ground
      (arith, any-put_condition now ds c t, eq_iff d.type c.type, eq_iff d.type t, eq_iff c.type t)

unique-put_condition :
    (now : ℕ) (cs : List Condition) (c : Condition)
    → has_unique_types cs ≡ true
    → has_unique_types (put_condition now cs c) ≡ true
unfolding has_unique_types put_condition merged_condition
unique-put_condition now [] c h = ground arith
unique-put_condition now (d ∷ ds) c h = ground (
  arith,
  unique-put_condition now ds c,
  any-put_condition now ds c d.type,
  eq_iff d.type c.type,
  eq_iff c.type d.type,
)

pub library_laws : LibraryLaws library
unfolding library
library_laws = record {
  contains-remove = λ m f g. contains-without m.finalizers f g;
  contains-add = λ m f g. ground (arith, eq_iff f g, eq_iff g f);
  is_true-lookup = λ cs t. refl;
  lookup-set = condition_of-put_condition;
  unique-set = unique-put_condition;
  key-add = λ m f. ground arith;
  key-set_controller = λ kind owner m n h. ground arith;
  version-remove = λ m f. (refl, refl);
  version-set_controller = λ kind owner m n h. ground arith;
  controller-set_controller = λ kind owner m n h. ground arith;
}
