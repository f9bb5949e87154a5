-- ===== src/Cluster/Server.antt =====
-- The API server as a parameter: the versions that it has stored of each binding, and what its
-- documentation says of reads and writes. A read may show an older version.
use fluent_pvc_operator.Cluster.Duties.{reveals}
use mathlib.Core.List.{Memᴰ}
use fluent_pvc_operator.Prelude.{String, ◌≡◌, List, [], ◌∷◌, All}
use fluent_pvc_operator.Kube.{SameVersion, success, PersistentVolumeClaim}
use fluent_pvc_operator.Api.{FluentPvcBinding}
use fluent_pvc_operator.Effect.{Call, Answer, update_binding, update_binding_status, update_pvc}

pub record Server : Type 1 where
  pub State : Type 0
  pub initial : State → Type 0
  -- a call, its answer and the state after it
  pub serves : State → (c : Call) → Answer c → State → Type 0
  -- what users and other controllers do
  pub others : State → State → Type 0
  -- the versions of the binding of a UID, the newest first
  pub versions : State → String → List FluentPvcBinding

-- What may happen to a binding's versions besides a new status: nothing, its creation with no
-- condition, or a new version with the same status.
pub data Rewritten (old new : List FluentPvcBinding) : Type 0 where
  untouched : new ≡ old → Rewritten old new
  made :
      (b : FluentPvcBinding)
      → old ≡ []
      → b.status.conditions ≡ []
      → new ≡ b ∷ []
      → Rewritten old new
  rewritten :
      (b r : FluentPvcBinding) (rest : List FluentPvcBinding)
      → old ≡ b ∷ rest
      → r.status ≡ b.status
      → new ≡ r ∷ b ∷ rest
      → Rewritten old new

-- What a call may do to them: a status is stored only onto the version that it was made from.
pub data Written (c : Call) (old new : List FluentPvcBinding) : Type 0 where
  same_status : Rewritten old new → Written c old new
  status_stored :
      (d b r : FluentPvcBinding) (rest : List FluentPvcBinding)
      → c ≡ update_binding_status d
      → old ≡ b ∷ rest
      → SameVersion d.meta b.meta
      → r.status ≡ d.status
      → new ≡ r ∷ b ∷ rest
      → Written c old new

module _ (sv : Server) where
  -- These bindings are or were stored.
  abbrev pub AreStored : sv.State → List FluentPvcBinding → Type 0
  AreStored s bs = All (λ b. Memᴰ b (sv.versions s b.meta.uid)) bs

  pub record ServerLaws : Type 0 where
    pub starts_empty : (s : sv.State) (u : String) → sv.initial s → sv.versions s u ≡ []
    -- only stored bindings are shown
    pub shows :
        (s s' : sv.State) (c : Call) (r : Answer c)
        → sv.serves s c r s'
        → AreStored s' (reveals c r)
    pub writes :
        (s s' : sv.State) (c : Call) (r : Answer c) (u : String)
        → sv.serves s c r s'
        → Written c (sv.versions s u) (sv.versions s' u)
    pub others_write :
        (s s' : sv.State) (u : String)
        → sv.others s s'
        → Rewritten (sv.versions s u) (sv.versions s' u)
    -- an update of the main resource leaves the status of its version alone
    pub keeps_status :
        (s s' : sv.State) (d r : FluentPvcBinding)
        → sv.serves s (update_binding d) (success r) s'
        → (b : FluentPvcBinding) × Memᴰ b (sv.versions s d.meta.uid)
          × SameVersion d.meta b.meta
          × (r.status ≡ b.status)
    pub keeps_uid :
        (s s' : sv.State) (p r : PersistentVolumeClaim)
        → sv.serves s (update_pvc p) (success r) s'
        → r.meta.uid ≡ p.meta.uid
    -- a UID and a resource version are of one stored version
    pub identified :
        (s : sv.State) (u : String) (b c : FluentPvcBinding)
        → Memᴰ b (sv.versions s u)
        → Memᴰ c (sv.versions s u)
        → SameVersion b.meta c.meta
        → b ≡ c
    pub keyed :
        (s : sv.State) (u : String) (b : FluentPvcBinding)
        → Memᴰ b (sv.versions s u)
        → b.meta.uid ≡ u
