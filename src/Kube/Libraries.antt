-- ===== src/Kube/Libraries.antt =====
-- What the operator calls in apimachinery and controller-runtime, as a parameter of the model,
-- with the documented behaviour that the theorems rely on.
use fluent_pvc_operator.Prelude.{
  ℕ, String, ◌≡◌, Bool, true, false, not, ◌&&◌, nat_eq, Option, none, some, List, [], ◌∷◌, ◌==◌,
  any, if◌then◌else◌,
}
use fluent_pvc_operator.Kube.Meta.{
  ObjectMeta, OwnerReference, Condition, ConditionStatus, condition_true, condition_false,
  condition_unknown, SameVersion, SameKey,
}
use fluent_pvc_operator.Kube.Errors.{ApiError, Outcome, ok}

pub record Library : Type 0 where
  -- apierrors.IsNotFound, apierrors.IsConflict
  pub is_not_found : ApiError → Bool
  pub is_conflict : ApiError → Bool
  -- controllerutil.ContainsFinalizer, AddFinalizer, RemoveFinalizer
  pub contains_finalizer : ObjectMeta → String → Bool
  pub add_finalizer : ObjectMeta → String → ObjectMeta
  pub remove_finalizer : ObjectMeta → String → ObjectMeta
  -- metav1.IsControlledBy object owner, metav1.GetControllerOf
  pub is_controlled_by : ObjectMeta → ObjectMeta → Bool
  pub get_controller_of : ObjectMeta → Option OwnerReference
  -- the group and version that the scheme gives a kind
  pub api_version_of : String → String
  -- ctrl.SetControllerReference, with the kind that the scheme gives the owner
  pub set_controller_reference : String → ObjectMeta → ObjectMeta → Outcome ObjectMeta
  -- meta.IsStatusConditionTrue; meta.SetStatusCondition, with the time that it reads
  pub is_status_condition_true : List Condition → String → Bool
  pub set_status_condition : ℕ → List Condition → Condition → List Condition

abbrev pub status_is_true : ConditionStatus → Bool
status_is_true condition_true = true
status_is_true condition_false = false
status_is_true condition_unknown = false

abbrev pub same_status : ConditionStatus → ConditionStatus → Bool
same_status condition_true condition_true = true
same_status condition_false condition_false = true
same_status condition_unknown condition_unknown = true
same_status _ _ = false

-- The condition of a type in a list.
unfoldable pub condition_of : List Condition → String → Option Condition
condition_of [] t = none
condition_of (c ∷ cs) t = if c.type == t then some c else condition_of cs t

abbrev pub condition_holds : Option Condition → Bool
condition_holds none = false
condition_holds (some c) = status_is_true c.status

-- A list that is a map by type, as the API declares it (`listMapKey=type`).
unfoldable pub has_unique_types : List Condition → Bool
has_unique_types [] = true
has_unique_types (c ∷ cs) = not (any (λ d. d.type == c.type) cs) && has_unique_types cs

-- The date that a new status gets: the clock's, where the condition comes with none.
abbrev pub date_of : ℕ → Condition → ℕ
date_of now c = if nat_eq c.last_transition_time 0 then now else c.last_transition_time

-- What `SetStatusCondition` stores for a type: a new status is dated, an unchanged one keeps its
-- date.
unfoldable pub merged_condition : ℕ → Option Condition → Condition → Condition
merged_condition now none c = record c { last_transition_time = date_of now c }
merged_condition now (some old) c = record c {
  last_transition_time =
      if same_status old.status c.status then old.last_transition_time else date_of now c;
}

-- The documented behaviour.
pub record LibraryLaws (l : Library) : Type 0 where
  pub contains-remove :
      (m : ObjectMeta) (f g : String)
      → l.contains_finalizer (l.remove_finalizer m f) g
        ≡ (if f == g then false else l.contains_finalizer m g)
  pub contains-add :
      (m : ObjectMeta) (f g : String)
      → l.contains_finalizer (l.add_finalizer m f) g
        ≡ (if f == g then true else l.contains_finalizer m g)
  pub is_true-lookup :
      (cs : List Condition) (t : String)
      → l.is_status_condition_true cs t ≡ condition_holds (condition_of cs t)
  pub lookup-set :
      (now : ℕ) (cs : List Condition) (c : Condition) (t : String)
      → condition_of (l.set_status_condition now cs c) t ≡ (
          if c.type == t
          then some (merged_condition now (condition_of cs t) c)
          else condition_of cs t)
  pub unique-set :
      (now : ℕ) (cs : List Condition) (c : Condition)
      → has_unique_types cs ≡ true
      → has_unique_types (l.set_status_condition now cs c) ≡ true
  -- these change the finalizers and the owners alone
  pub key-add : (m : ObjectMeta) (f : String) → SameKey (l.add_finalizer m f) m
  pub key-set_controller :
      (kind : String) (owner m n : ObjectMeta)
      → l.set_controller_reference kind owner m ≡ ok n
      → SameKey n m
  pub version-remove : (m : ObjectMeta) (f : String) → SameVersion (l.remove_finalizer m f) m
  pub version-set_controller :
      (kind : String) (owner m n : ObjectMeta)
      → l.set_controller_reference kind owner m ≡ ok n
      → SameVersion n m
  pub controller-set_controller :
      (kind : String) (owner m n : ObjectMeta)
      → l.set_controller_reference kind owner m ≡ ok n
      → l.get_controller_of n
        ≡ some (record {
          api_version = l.api_version_of kind;
          kind = kind;
          name = owner.name;
          uid = owner.uid;
          controller = some "true";
        })
