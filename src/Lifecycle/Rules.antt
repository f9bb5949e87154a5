-- ===== src/Lifecycle/Rules.antt =====
-- What a program of the operator may write of bindings.
use fluent_pvc_operator.Prelude.{Bool, true, false, ◌≡◌, refl, if◌then◌else◌}
use fluent_pvc_operator.Api.{FluentPvcBinding}
use fluent_pvc_operator.Effect.{
  Call, update_binding_status, Program, Ensures, update_binding, delete_binding, create_binding,
  update_pvc, delete_pvc, create_or_update_job,
}

-- What a program may write: which statuses, which objects, and whether it may delete.
pub record Rules : Type 1 where
  pub status : FluentPvcBinding → Type 0
  pub object : FluentPvcBinding → Type 0
  pub deletion : Type 0

abbrev pub Obeys : Rules → Call → Type 0
Obeys F (update_binding_status b) = F.status b
Obeys F (update_binding b) = F.object b
Obeys F (delete_binding b o) = F.deletion
Obeys F (create_binding b) = ⊥
Obeys F (update_pvc p) = ⊥
Obeys F (delete_pvc p o) = ⊥
Obeys F (create_or_update_job j f) = ⊥
Obeys F _ = Unit

abbrev pub Saves : {A : Type 0} → Rules → Program A → Type 0
Saves F m = Ensures (Obeys F) (λ _. Unit {0}) m

pub Saves-if :
    {A : Type 0} (F : Rules) (b : Bool) (m n : Program A)
    → (b ≡ true → Saves F m)
    → (b ≡ false → Saves F n)
    → Saves F (if b then m else n)
Saves-if F true m n h k = h refl
Saves-if F false m n h k = k refl
