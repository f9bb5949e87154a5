-- ===== src/Controllers/FluentPvcs/Protection.antt =====
-- The finalizer of a FluentPVC, controllers/fluentpvc_controller.go.
use fluent_pvc_operator.Prelude.{
  String, Bool, not, ◌≡◌, refl, List, [], ◌∷◌, any, ◌==◌, arith, if◌then◌else◌, Option, some, none,
}
use fluent_pvc_operator.Kube.{Library, LibraryLaws, ObjectKey, Reply, success, failure}
use fluent_pvc_operator.Api.{
  FluentPvc, FluentPvcBinding, fluent_pvc_binding_finalizer_name, fluent_pvc_finalizer_name,
}
use fluent_pvc_operator.Effect.{
  Environment, calls, get_fluent_pvc, list_bindings, update_fluent_pvc, Call,
}
use fluent_pvc_operator.Controllers.FluentPvcs.{all_bindings_finalized, refinalize, reconcile}

-- The listed bindings; a list that is not found is empty.
abbrev pub listed : Library → Reply (List FluentPvcBinding) → Option (List FluentPvcBinding)
listed l (success bs) = some bs
listed l (failure e) = if l.is_not_found e then some [] else none

abbrev pub is_protected : Library → FluentPvcBinding → Bool
is_protected l b = l.contains_finalizer b.meta fluent_pvc_binding_finalizer_name

module _ (l : Library) where
  all_bindings_finalized-any :
      (bs : List FluentPvcBinding) → all_bindings_finalized l bs ≡ not (any (is_protected l) bs)
  unfolding all_bindings_finalized
  all_bindings_finalized-any [] = refl
  all_bindings_finalized-any (b ∷ bs) = ground (arith, all_bindings_finalized-any bs)

  module _ (laws : LibraryLaws l) (fpvc : FluentPvc) (bs : List FluentPvcBinding) where
    contains-refinalize :
        (g : String)
        → l.contains_finalizer (refinalize l fpvc bs).meta g ≡ (
            if fluent_pvc_finalizer_name == g
            then any (is_protected l) bs
            else l.contains_finalizer fpvc.meta g)
    unfolding refinalize
    contains-refinalize g = ground (
      arith,
      all_bindings_finalized-any bs,
      laws.contains-remove fpvc.meta fluent_pvc_finalizer_name g,
      laws.contains-add fpvc.meta fluent_pvc_finalizer_name g,
    )

  -- The update that a run makes, of a FluentPVC with these listed bindings.
  abbrev pub Refinalizes : List Call → ObjectKey → FluentPvc → List FluentPvcBinding → Type 0
  Refinalizes cs req fpvc bs =
      (stored : FluentPvc) × (cs
        ≡ get_fluent_pvc req.name ∷ list_bindings fpvc.meta.name ∷ update_fluent_pvc stored ∷ [])
      × (stored.spec ≡ fpvc.spec)
      × ((g : String)
          → l.contains_finalizer stored.meta g ≡ (
              if fluent_pvc_finalizer_name == g
              then any (is_protected l) bs
              else l.contains_finalizer fpvc.meta g))

  -- A run that reads a FluentPVC and the list of its bindings (empty, if the server knows of none)
  -- makes one update: the finalizer is there exactly if some listed binding has its own, every
  -- other finalizer is as before, and the specification is unchanged.
  pub protection_exact :
      LibraryLaws l
      → (env : Environment) (req : ObjectKey) (fpvc : FluentPvc) (bs : List FluentPvcBinding)
      → env 0 (get_fluent_pvc req.name) ≡ success fpvc
      → listed l (env 1 (list_bindings fpvc.meta.name)) ≡ some bs
      → Refinalizes (calls env 0 (reconcile l req)) req fpvc bs
  unfolding reconcile
  protection_exact laws env req fpvc bs p q = (
    refinalize l fpvc bs,
    ground arith,
    unfold refinalize in refl,
    contains-refinalize laws fpvc bs,
  )
