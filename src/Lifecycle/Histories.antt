-- ===== src/Lifecycle/Histories.antt =====
-- Runs and histories of runs of the binding reconciler,
-- controllers/fluentpvcbinding_controller.go.
use fluent_pvc_operator.Effect.{
  Environment, Call, Program, get_binding, calls, All-bind, Ensures-calls, update_binding_status,
  Ensures-map, update_binding, delete_binding,
}
use fluent_pvc_operator.Lifecycle.Decisions.{decide-Follows, rules}
use fluent_pvc_operator.Prelude.{
  false, ◌≡◌, Option, arith, All, [], ℕ, Bool, if◌then◌else◌, not, true, refl,
}
use fluent_pvc_operator.Kube.{
  Library, LibraryLaws, Pod, PersistentVolumeClaim, Outcome, ok, err, panicked, condition_of,
  ObjectKey, ObjectMeta, Reply, success, failure,
}
use fluent_pvc_operator.Api.{FluentPvcBinding, FluentPvc, is_condition_unknown, is_controlled_by}
use fluent_pvc_operator.Controllers.Bindings.{
  with_claim, with_pod, fulfill_fluent_pvc_binding_pvc, update_controller_fluent_pvc, on_fluent_pvc,
  reconcile, fulfill_fluent_pvc_binding_pod, decide,
}
use fluent_pvc_operator.Lifecycle.Flags.{flags, holds}
use fluent_pvc_operator.Lifecycle.Steps.{Step, no_flags}
use fluent_pvc_operator.Lifecycle.Rules.{Saves, Rules, Obeys}
use fluent_pvc_operator.Lifecycle.Fulfilments.{
  SameStatus, KeepsStatus, fulfilment-Saves, fulfilment-SameStatus,
}

-- Flags are read off the status alone.
pub flags-status :
    (l : Library) (b c : FluentPvcBinding) → c.status ≡ b.status → flags l c ≡ flags l b
unfolding flags holds
flags-status l b c h = ground arith

-- The steps of the diagram from the flags of a binding, with no claim on the other writes.
abbrev pub steps_from : Library → FluentPvcBinding → Rules
steps_from l b = record {
  status = λ c. Step (flags l b) (flags l c);
  object = λ _. Unit;
  deletion = Unit;
}

Obeys-steps_from :
    (l : Library) (b c : FluentPvcBinding)
    → c.status ≡ b.status
    → (k : Call) → Obeys (rules l c) k
    → Obeys (steps_from l b) k
Obeys-steps_from l b c h (update_binding_status d) p = rw (← flags-status l b c h) p.1
Obeys-steps_from l b c h (update_binding d) p = tt
Obeys-steps_from l b c h (delete_binding d o) p = tt
Obeys-steps_from l b c h _ p = p

module _ (l : Library) (laws : LibraryLaws l) (b : FluentPvcBinding)
    (known : (flags l b).unknown ≡ false) where
  -- a decision on the binding as the search for the pod left it
  with_claim-Saves :
      (c : FluentPvcBinding) (pod : Option Pod) (o : Outcome (Option PersistentVolumeClaim))
      → c.status ≡ b.status
      → Saves (steps_from l b) (with_claim l c pod o)
  unfolding with_claim
  with_claim-Saves c pod (ok pvc) h =
      Ensures-map (Obeys (rules l c)) (Obeys (steps_from l b)) (λ _. Unit {0}) (decide l c pod pvc)
        (Obeys-steps_from l b c h)
        (decide-Follows l laws c (rw (flags-status l b c h) known) pod pvc)
  with_claim-Saves c pod (err e) h = tt
  with_claim-Saves c pod panicked h = tt

  with_pod-Saves :
      (o : Outcome (FluentPvcBinding × Option Pod))
      → SameStatus b o
      → Saves (steps_from l b) (with_pod l o)
  unfolding with_pod fulfill_fluent_pvc_binding_pvc
  with_pod-Saves (ok t) h = (tt, λ r. with_claim-Saves t.0 t.1 _ h)
  with_pod-Saves (err e) h = tt
  with_pod-Saves panicked h = tt

pub All-if :
    (P : Call → Type 0) (env : Environment) (n : ℕ) {A : Type 0} (t : Bool) (p q : Program A)
    → All P (calls env n p)
    → (t ≡ false → All P (calls env n q))
    → All P (calls env n (if t then p else q))
All-if P env n true p q hp hq = hp
All-if P env n false p q hp hq = hq refl

module _ (l : Library) (laws : LibraryLaws l) (env : Environment) (keeps : KeepsStatus env) where
  -- The calls of a program store only statuses that are a step from the binding's.
  abbrev AllFollow : {A : Type 0} → FluentPvcBinding → ℕ → Program A → Type 0
  AllFollow b n m = All (Obeys (steps_from l b)) (calls env n m)

  update_controller-AllFollow :
      (b : FluentPvcBinding) (fpvc : FluentPvc) (n : ℕ) (o : Outcome ObjectMeta)
      → AllFollow b n (update_controller_fluent_pvc b fpvc o)
  unfolding update_controller_fluent_pvc
  update_controller-AllFollow b fpvc n (ok m) = (tt, tt)
  update_controller-AllFollow b fpvc n (err e) = tt
  update_controller-AllFollow b fpvc n panicked = tt

  on_fluent_pvc-AllFollow :
      (b : FluentPvcBinding) (n : ℕ) (r : Reply FluentPvc) → AllFollow b n (on_fluent_pvc l b r)
  unfolding on_fluent_pvc is_condition_unknown
  on_fluent_pvc-AllFollow b n (failure e) = tt
  on_fluent_pvc-AllFollow b n (success fpvc) =
      All-if P env n (not (is_controlled_by l b fpvc)) _ _
        (update_controller-AllFollow b fpvc n
          (l.set_controller_reference "FluentPVC" fpvc.meta b.meta))
        (λ _. All-if P env n (is_condition_unknown l b) _ _ tt (λ known.
          All-bind P (λ _. Unit {0}) env n (fulfill_fluent_pvc_binding_pod l b) (with_pod l)
            (fulfilment-Saves l (steps_from l b) b (λ _. tt))
            (λ k.
              Ensures-calls P (λ _. Unit {0}) env k _
                (with_pod-Saves l laws b (unfold flags holds in known) _
                  (fulfilment-SameStatus env keeps b l n)))))
    where
      P : Call → Type 0
      P = Obeys (steps_from l b)

  -- Whatever else the server answers, as long as an update of the main resource keeps the status: a
  -- run that read a binding stores only statuses whose flags are one step of the diagram from the
  -- flags it read.
  pub reconcile-AllFollow :
      (req : ObjectKey) (b : FluentPvcBinding)
      → env 0 (get_binding req) ≡ success b
      → AllFollow b 0 (reconcile l req)
  unfolding reconcile
  reconcile-AllFollow req b h = rw h (tt, (tt, on_fluent_pvc-AllFollow b 2 _))

module _ (l : Library) where
  pub flags-created :
      LibraryLaws l → (b : FluentPvcBinding) → b.status.conditions ≡ [] → flags l b ≡ no_flags
  unfolding flags holds condition_of
  flags-created laws b h = simp (h, laws.is_true-lookup)
