-- ===== src/Kube/Meta.antt =====
-- metav1: the metadata of objects, their owners and conditions, and the options of a deletion.
use fluent_pvc_operator.Prelude.{
  ℕ, String, Option, none, some, List, [], ◌∷◌, ◌==◌, if◌then◌else◌, ◌≡◌,
}

-- A Go map with string keys and values.
abbrev pub StringMap : Type 0
StringMap = List (String × String)

pub record OwnerReference : Type 0 where
  pub api_version : String
  pub kind : String
  pub name : String
  pub uid : String
  pub controller : Option String

-- `labels` may be the nil map.
pub record ObjectMeta : Type 0 where
  pub name : String
  pub generate_name : String
  pub namespace : String
  pub uid : String
  pub resource_version : String
  pub creation_timestamp : ℕ
  pub labels : Option StringMap
  pub finalizers : List String
  pub owner_references : List OwnerReference

abbrev pub empty_meta : ObjectMeta
empty_meta = record {
  name = "";
  generate_name = "";
  namespace = "";
  uid = "";
  resource_version = "";
  creation_timestamp = 0;
  labels = none;
  finalizers = [];
  owner_references = [];
}

pub record ObjectKey : Type 0 where
  pub namespace : String
  pub name : String

-- metav1.ConditionStatus
pub data ConditionStatus : Type 0 where
  condition_true condition_false condition_unknown : ConditionStatus

-- metav1.Condition; times are nanoseconds.
pub record Condition : Type 0 where
  pub type : String
  pub status : ConditionStatus
  pub last_transition_time : ℕ
  pub reason : String
  pub message : String

pub data DeletionPropagation : Type 0 where
  orphan background foreground : DeletionPropagation

-- client.DeleteOptions with its preconditions
pub record DeleteOptions : Type 0 where
  pub uid : Option String
  pub resource_version : Option String
  pub propagation_policy : Option DeletionPropagation

-- reading and writing a key of a map
unfoldable pub lookup_key : String → StringMap → Option String
lookup_key k [] = none
lookup_key k ((j, v) ∷ m) = if j == k then some v else lookup_key k m

unfoldable pub insert_key : String → String → StringMap → StringMap
insert_key k v [] = (k, v) ∷ []
insert_key k v ((j, w) ∷ m) = if j == k then (k, v) ∷ m else (j, w) ∷ insert_key k v m

-- The metadata have the same namespace and name.
abbrev pub SameKey : ObjectMeta → ObjectMeta → Type 0
SameKey m n = (m.namespace ≡ n.namespace) × (m.name ≡ n.name)

-- The same stored version of the same object.
abbrev pub SameVersion : ObjectMeta → ObjectMeta → Type 0
SameVersion m n = (m.uid ≡ n.uid) × (m.resource_version ≡ n.resource_version)
