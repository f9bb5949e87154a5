-- ===== src/Lifecycle/Endings.antt =====
-- How a binding that is over is deleted, controllers/fluentpvcbinding_controller.go.
use fluent_pvc_operator.Lifecycle.Deletions.{MayDelete}
use fluent_pvc_operator.Lifecycle.Finishing.{SeesPodGone, reads, reconcile-decides}
use fluent_pvc_operator.Controllers.Bindings.{
  reconcile, decide, delete_fluent_pvc_binding, on_unprotected,
}
use fluent_pvc_operator.Effect.{Call, Environment, calls, update_binding, delete_binding}
use fluent_pvc_operator.Api.{FluentPvcBinding, fluent_pvc_binding_finalizer_name}
use fluent_pvc_operator.Kube.{
  Library, ObjectKey, PersistentVolumeClaim, Pod, Reply, success, failure, background,
}
use fluent_pvc_operator.Prelude.{
  ℕ, suc, ◌≡◌, refl, ap, ◌∙◌, List, [], ◌∷◌, ◌++◌, Option, some, none, arith, inl, inr,
  if◌then◌else◌,
}

-- The binding as the update stores it: without the operator's finalizer.
abbrev pub freed : Library → FluentPvcBinding → FluentPvcBinding
freed l b = record b { meta = l.remove_finalizer b.meta fluent_pvc_binding_finalizer_name }

-- on the condition that UID and version are those of the binding
abbrev pub deletion_of : FluentPvcBinding → Call
deletion_of b = delete_binding b (record {
  uid = some b.meta.uid;
  resource_version = some b.meta.resource_version;
  propagation_policy = some background;
})

abbrev pub calls_after_update : Library → FluentPvcBinding → Reply FluentPvcBinding → List Call
calls_after_update l b (success stored) = deletion_of stored ∷ []
calls_after_update l b (failure e) = if l.is_not_found e then deletion_of (freed l b) ∷ [] else []

-- The calls that delete a binding from call number n on.
abbrev pub deletion_calls : Library → Environment → ℕ → FluentPvcBinding → List Call
deletion_calls l env n b =
    if l.contains_finalizer b.meta fluent_pvc_binding_finalizer_name
    then update_binding (freed l b) ∷ calls_after_update l b (env n (update_binding (freed l b)))
    else deletion_of b ∷ []

module _ (l : Library) (env : Environment) (b : FluentPvcBinding) where
  on_unprotected-calls :
      (n : ℕ) (r : Reply FluentPvcBinding)
      → calls env n (on_unprotected l (freed l b) r) ≡ calls_after_update l b r
  unfolding on_unprotected
  on_unprotected-calls n (success stored) = ground arith
  on_unprotected-calls n (failure e) = ground arith

  delete_fluent_pvc_binding-calls :
      (n : ℕ) → calls env n (delete_fluent_pvc_binding l b) ≡ deletion_calls l env n b
  unfolding delete_fluent_pvc_binding
  delete_fluent_pvc_binding-calls n =
      ground (arith, on_unprotected-calls (suc n) (env n (update_binding (freed l b))))

module _ (l : Library) (b : FluentPvcBinding) where
  decide-deletes :
      (pod : Option Pod) (found : Option PersistentVolumeClaim)
      → MayDelete l b found
      → decide l b pod found ≡ delete_fluent_pvc_binding l b
  unfolding decide
  decide-deletes pod found (inl (gone, missing)) = rw gone (rw missing refl)
  decide-deletes pod found (inr (done, free, kept)) = ground arith

  -- If a run reads a binding that is controlled by its FluentPVC and known, finds its pod gone, and
  -- either finds no claim of a binding that misses its pod, or finds for a binding that is
  -- finalized with success no claim or one that is not lost and is without the operator's
  -- finalizer, then its calls after these reads are those that delete the binding: first an update
  -- takes off the operator's finalizer if the binding has it, and if that is accepted, finds the
  -- binding gone or is not needed, the binding is deleted on the condition that its UID and its
  -- version are those that are known by then.
  pub reconcile-deletes :
      (env : Environment) (req : ObjectKey) (found : Option PersistentVolumeClaim)
      → SeesPodGone l env req b found
      → MayDelete l b found
      → calls env 0 (reconcile l req) ≡ reads req b ++ deletion_calls l env 4 b
  reconcile-deletes env req found sees may =
      reconcile-decides l env req b found sees
      ∙ ap (λ m. reads req b ++ calls env 4 m) (decide-deletes none found may)
      ∙ ap (λ cs. reads req b ++ cs) (delete_fluent_pvc_binding-calls l env b 4)
