-- ===== src/Controllers/Claims/Release.antt =====
-- The release of a claim by the claim reconciler, controllers/pvc_controller.go.
use fluent_pvc_operator.Prelude.{
  ◌≡◌, ◌⊎◌, Bool, true, false, arith, any, ◌==◌, inl, inr, ℕ, suc, none, [], if◌then◌else◌,
}
use fluent_pvc_operator.Kube.{
  Library, ObjectKey, PersistentVolumeClaim, success, Reply-cases, panicked, background,
}
use fluent_pvc_operator.Api.{
  FluentPvcBinding, is_condition_out_of_use, is_condition_unknown, is_condition_pod_missing,
  is_condition_finalizer_job_succeeded, is_condition_finalizer_job_failed, FluentPvc,
  pvc_finalizer_name, is_condition_finalizer_job_applied,
}
use fluent_pvc_operator.Effect.{
  Call, get_pvc, get_binding, update_pvc, delete_pvc, Environment, calls,
}
use fluent_pvc_operator.Controllers.Claims.{
  reconcile, on_binding, when_applied, on_applied, on_fluent_pvc, apply_job, on_jobs,
  when_out_of_use, Outcome, Reply, Option, ok, OwnerReference, List, list_jobs, err, failure, some,
  Job, ◌∷◌, release, Result, no_requeue, later, binding_key,
}

abbrev pub is_release : Call → Bool
is_release (update_pvc p) = true
is_release (delete_pvc p o) = true
is_release _ = false

-- The binding says that no pod came, or that the finalizer job has succeeded.
pub record IsDone (l : Library) (b : FluentPvcBinding) : Type 0 where
  pub known : is_condition_unknown l b ≡ false
  pub out_of_use : is_condition_out_of_use l b ≡ true
  pub succeeded : is_condition_finalizer_job_succeeded l b ≡ true
  pub not_failed : is_condition_finalizer_job_failed l b ≡ false

abbrev pub MayRelease : Library → FluentPvcBinding → Type 0
MayRelease l b = (is_condition_pod_missing l b ≡ true) ⊎ IsDone l b

-- The stages from the last to the first; a stage's calls begin at call number n.
module _ (l : Library) (env : Environment) (pvc : PersistentVolumeClaim)
    (b : FluentPvcBinding) where
  abbrev SucceededNotFailed : Type 0
  SucceededNotFailed =
      (is_condition_finalizer_job_succeeded l b ≡ true)
      × (is_condition_finalizer_job_failed l b ≡ false)

  when_applied-release :
      (n : ℕ) → any is_release (calls env n (when_applied l pvc b)) ≡ true → SucceededNotFailed
  unfolding when_applied
  when_applied-release n h = ground arith

  on_applied-release :
      (n : ℕ) (r : Outcome Unit)
      → any is_release (calls env n (on_applied l pvc b r)) ≡ true
      → SucceededNotFailed
  unfolding on_applied
  on_applied-release n (ok u) h = when_applied-release n h
  on_applied-release n (err e) h = cc
  on_applied-release n panicked h = cc

  on_fluent_pvc-release :
      (n : ℕ) (r : Reply FluentPvc)
      → any is_release (calls env n (on_fluent_pvc l pvc b r)) ≡ true
      → SucceededNotFailed
  unfolding on_fluent_pvc
  on_fluent_pvc-release n (success fpvc) h = on_applied-release (suc n) _ h
  on_fluent_pvc-release n (failure e) h = cc

  apply_job-release :
      (n : ℕ) (o : Option OwnerReference)
      → any is_release (calls env n (apply_job l pvc b o)) ≡ true
      → SucceededNotFailed
  unfolding apply_job
  apply_job-release n none h = cc
  apply_job-release n (some owner) h = on_fluent_pvc-release (suc n) _ h

  on_jobs-release :
      (n : ℕ) (r : Reply (List Job))
      → any is_release (calls env n (on_jobs l pvc b r)) ≡ true
      → SucceededNotFailed
  unfolding on_jobs
  on_jobs-release n (success []) h = apply_job-release n _ h
  on_jobs-release n (success (j ∷ js)) h = cc
  on_jobs-release n (failure e) h = ground (arith, apply_job-release n (l.get_controller_of b.meta))

  when_out_of_use-release :
      (n : ℕ) → any is_release (calls env n (when_out_of_use l pvc b)) ≡ true → SucceededNotFailed
  unfolding when_out_of_use
  when_out_of_use-release n h =
      ground
        (arith, when_applied-release n, on_jobs-release (suc n) (env n (list_jobs b.meta.name)))

  on_binding-release :
      (n : ℕ)
      → any is_release (calls env n (on_binding l pvc (success b))) ≡ true
      → ((pvc.meta.uid == b.spec.pvc.uid) ≡ true) × MayRelease l b
  unfolding on_binding
  on_binding-release n h = ground (arith, when_out_of_use-release n)

abbrev pub JustifiedRelease : Library → Environment → ObjectKey → Type 0
JustifiedRelease l env req =
    (pvc : PersistentVolumeClaim) × (b : FluentPvcBinding) × (env 0 (get_pvc req) ≡ success pvc)
    × (env 1 (get_binding (binding_key req pvc)) ≡ success b)
    × ((pvc.meta.uid == b.spec.pvc.uid) ≡ true)
    × MayRelease l b

module _ (l : Library) (env : Environment) (req : ObjectKey) where
  -- Whatever the server answers, a run updates or deletes a claim only if it read the claim and
  -- the binding of its name, which names the claim's UID, and the binding either misses its pod or
  -- is known, out of use, and its finalizer job has succeeded and not failed.
  pub release_only_if_done :
      any is_release (calls env 0 (reconcile l req)) ≡ true → JustifiedRelease l env req
  unfolding reconcile
  release_only_if_done h = elim (Reply-cases (env 0 (get_pvc req))) [
    | inl (pvc, p) ↦ elim (Reply-cases (env 1 (get_binding (binding_key req pvc)))) [
      | inl (b, q) ↦ (
        pvc,
        b,
        p,
        q,
        ground (arith, on_binding-release l env pvc b 2),
        ground (arith, on_binding-release l env pvc b 2),
      )
      | inr (e, q) ↦ absurd (ground arith)
    ]
    | inr (e, p) ↦ absurd (ground arith)
  ]

-- The claim as the update stores it: without the operator's finalizer.
abbrev pub unprotected : Library → PersistentVolumeClaim → PersistentVolumeClaim
unprotected l pvc = record pvc { meta = l.remove_finalizer pvc.meta pvc_finalizer_name }

abbrev pub deletion_of : PersistentVolumeClaim → Call
deletion_of p = delete_pvc p (record {
  uid = some p.meta.uid;
  resource_version = some p.meta.resource_version;
  propagation_policy = some background;
})

-- What follows the update: nothing unless it was accepted or the claim is already gone.
abbrev pub calls_after_update :
    Library → PersistentVolumeClaim → Reply PersistentVolumeClaim → List Call
calls_after_update l pvc (success stored) = deletion_of stored ∷ []
calls_after_update l pvc (failure e) =
    if l.is_not_found e then deletion_of (unprotected l pvc) ∷ [] else []

module _ (l : Library) (env : Environment) (req : ObjectKey) (pvc : PersistentVolumeClaim)
    (b : FluentPvcBinding) where
  calls-release :
      (n : ℕ) (on_conflict : Result)
      → calls env n (release l on_conflict pvc)
        ≡ update_pvc (unprotected l pvc)
          ∷ calls_after_update l pvc (env n (update_pvc (unprotected l pvc)))
  unfolding release
  calls-release n on_conflict = ground arith

  -- A claim that may be released, with its job applied, is released: the run takes the operator's
  -- finalizer off, and unless that fails deletes the claim on the condition that its UID and its
  -- version are those that the update stored.
  pub release_if_done :
      env 0 (get_pvc req) ≡ success pvc
      → env 1 (get_binding (binding_key req pvc)) ≡ success b
      → (pvc.meta.uid == b.spec.pvc.uid) ≡ true
      → MayRelease l b
      → is_condition_finalizer_job_applied l b ≡ true
      → calls env 0 (reconcile l req)
        ≡ get_pvc req
          ∷ get_binding (binding_key req pvc)
          ∷ update_pvc (unprotected l pvc)
          ∷ calls_after_update l pvc (env 2 (update_pvc (unprotected l pvc)))
  unfolding reconcile
  release_if_done p q u m a = ground (arith, calls-release 2 no_requeue, calls-release 2 later)
