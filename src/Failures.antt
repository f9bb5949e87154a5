-- ===== src/Failures.antt =====
-- The errors of the server in the runs of the reconcilers.
pub mod Others
pub mod Claims
pub mod Writes
pub mod Bindings
pub mod Runs
pub mod Reconcilers
use fluent_pvc_operator.Effect.{
  Call, Answer, Program, ret, call, ◌>>=◌, get_binding, get_pod, get_pvc, get_fluent_pvc,
  get_storage_class, list_pods, list_jobs, list_bindings, list_binding_page, create_binding,
  update_binding, update_binding_status, update_fluent_pvc, create_pvc, update_pvc, delete_binding,
  delete_pod, delete_pvc, dry_run_create_job, dry_run_create_pvc, dry_run_create_pod,
  create_or_update_job,
}
use fluent_pvc_operator.Kube.{
  Library, Reply, success, failure, Outcome, ok, err, panicked, ApiError,
}
use fluent_pvc_operator.Prelude.{Bool, true, false, ◌≡◌, if◌then◌else◌}

-- The run is over and has returned an error.
abbrev pub Fails : {A : Type 0} → Program (Outcome A) → Type 0
Fails (ret (err e)) = Unit
Fails (ret (ok a)) = ⊥
Fails (ret panicked) = ⊥
Fails (call c k) = ⊥

module _ (l : Library) where
  -- An error that tells neither that the object is gone nor that it has changed.
  abbrev pub IsHard : {A : Type 0} → Reply A → Type 0
  IsHard (success a) = ⊥
  IsHard (failure e) = (l.is_not_found e ≡ false) × (l.is_conflict e ≡ false)

  abbrev pub IsError : {A : Type 0} → Outcome A → Type 0
  IsError (ok a) = ⊥
  IsError (err e) = Unit
  IsError panicked = ⊥

  abbrev pub IsRefused : (c : Call) → Answer c → Type 0
  IsRefused (get_binding k) r = IsHard r
  IsRefused (get_pod k) r = IsHard r
  IsRefused (get_pvc k) r = IsHard r
  IsRefused (get_fluent_pvc n) r = IsHard r
  IsRefused (get_storage_class n) r = IsHard r
  IsRefused (list_pods n v) r = IsHard r
  IsRefused (list_jobs o) r = IsHard r
  IsRefused (list_bindings o) r = IsHard r
  IsRefused (list_binding_page n t) r = IsHard r
  IsRefused (create_binding b) r = IsHard r
  IsRefused (update_binding b) r = IsHard r
  IsRefused (update_binding_status b) r = IsHard r
  IsRefused (update_fluent_pvc f) r = IsHard r
  IsRefused (create_pvc p) r = IsHard r
  IsRefused (update_pvc p) r = IsHard r
  IsRefused (delete_binding b o) r = IsHard r
  IsRefused (delete_pod p o) r = IsHard r
  IsRefused (delete_pvc p o) r = IsHard r
  IsRefused (dry_run_create_job j) r = IsHard r
  IsRefused (dry_run_create_pvc p) r = IsHard r
  IsRefused (dry_run_create_pod p) r = IsHard r
  IsRefused (create_or_update_job j f) r = IsError r
  IsRefused _ r = ⊥

  -- Every call that is refused is the last one, and the run returns an error.
  abbrev pub Halts : {A : Type 0} → Program (Outcome A) → Type 0
  Halts (ret o) = Unit
  Halts (call c k) = (r : Answer c) → (IsRefused c r → Fails (k r)) × Halts (k r)

  abbrev pub Answered : {A B : Type 0} → (Reply A → Program (Outcome B)) → Type 0
  Answered k = (r : _) → (IsHard r → Fails (k r)) × Halts (k r)

  IsError-Fails : {A : Type 0} (o : Outcome A) → IsError o → Fails (ret o)
  IsError-Fails (err e) h = tt
  IsError-Fails (ok a) h = absurd h
  IsError-Fails panicked h = absurd h

  pub answered :
      {A B : Type 0} (k : Reply A → Program (Outcome B))
      → ((a : A) → Halts (k (success a)))
      → ((e : ApiError) → Halts (k (failure e)))
      → ((e : ApiError) → IsHard {A = A} (failure e) → Fails (k (failure e)))
      → Answered k
  answered k h g f (success a) = (λ x. absurd x, h a)
  answered k h g f (failure e) = (λ x. f e x, g e)

  -- the last call of a run
  pub Answered-last :
      {A B : Type 0} (g : Reply A → Outcome B)
      → ((e : ApiError) → IsHard {A = A} (failure e) → IsError (g (failure e)))
      → Answered (λ r. ret (g r))
  Answered-last g f =
      answered (λ r. ret (g r)) (λ a. tt) (λ e. tt) (λ e h. IsError-Fails (g (failure e)) (f e h))

  pub Halts-if :
      {A : Type 0} (t : Bool) (m n : Program (Outcome A))
      → Halts m
      → Halts n
      → Halts (if t then m else n)
  Halts-if true m n h j = h
  Halts-if false m n h j = j

  Fails-bind :
      {A B : Type 0} (m : Program (Outcome A)) (f : Outcome A → Program (Outcome B))
      → Fails m
      → ((o : Outcome A) → IsError o → Fails (f o))
      → Fails (m >>= f)
  Fails-bind (ret (err e)) f h j = j (err e) tt
  Fails-bind (ret (ok a)) f h j = absurd h
  Fails-bind (ret panicked) f h j = absurd h
  Fails-bind (call c k) f h j = absurd h

  pub Halts-bind :
      {A B : Type 0} (m : Program (Outcome A)) (f : Outcome A → Program (Outcome B))
      → Halts m
      → ((o : Outcome A) → Halts (f o))
      → ((o : Outcome A) → IsError o → Fails (f o))
      → Halts (m >>= f)
  Halts-bind (ret o) f h j g = j o
  Halts-bind (call c k) f h j g =
      λ r. (λ x. Fails-bind (k r) f ((h r).0 x) g, Halts-bind (k r) f (h r).1 j g)
