-- ===== src/Controllers/Claims/Application.antt =====
-- The job application of the claim reconciler, controllers/pvc_controller.go.
use fluent_pvc_operator.Prelude.{
  ℕ, suc, ◌≡◌, refl, inl, inr, Bool, true, false, Option, none, some, List, [], ◌∷◌, arith, any,
  ◌==◌,
}
use fluent_pvc_operator.Kube.{
  Library, SameVersion, Outcome, ok, PersistentVolumeClaim, Job, OwnerReference, Reply, success,
  failure, Reply-cases,
}
use fluent_pvc_operator.Api.{
  FluentPvc, FluentPvcBinding, is_condition_pod_missing, is_condition_unknown,
  is_condition_out_of_use, is_condition_finalizer_job_applied,
}
use fluent_pvc_operator.Effect.{
  Call, calls, Environment, list_jobs, get_fluent_pvc, create_or_update_job,
}
use fluent_pvc_operator.Controllers.Claims.Mutating.{IsFinalizerJob}
use fluent_pvc_operator.Controllers.Claims.{
  on_binding, on_jobs, when_applied, apply_job, release, Result, ObjectKey, get_pvc, reconcile,
  get_binding, binding_key,
}

abbrev pub is_application : Call → Bool
is_application (create_or_update_job j f) = true
is_application _ = false

-- The list of jobs came back empty, or the server knows of none.
abbrev pub no_jobs : Library → Reply (List Job) → Bool
no_jobs l (success []) = true
no_jobs l (success (j ∷ js)) = false
no_jobs l (failure e) = l.is_not_found e

-- The claim's pod is gone for good, and no finalizer job has been seen yet.
pub record NeedsJob (l : Library) (pvc : PersistentVolumeClaim) (b : FluentPvcBinding)
    : Type 0 where
  pub bound : (pvc.meta.uid == b.spec.pvc.uid) ≡ true
  pub pod_came : is_condition_pod_missing l b ≡ false
  pub known : is_condition_unknown l b ≡ false
  pub out_of_use : is_condition_out_of_use l b ≡ true
  pub unapplied : is_condition_finalizer_job_applied l b ≡ false

module _ (l : Library) (env : Environment) (pvc : PersistentVolumeClaim)
    (b : FluentPvcBinding) where
  release-application :
      (n : ℕ) (r : Result) → any is_application (calls env n (release l r pvc)) ≡ false
  unfolding release
  release-application n r = ground arith

  when_applied-application :
      (n : ℕ) → any is_application (calls env n (when_applied l pvc b)) ≡ false
  unfolding when_applied
  when_applied-application n = ground arith

  apply_job-application :
      (n : ℕ) (o : Option OwnerReference)
      → any is_application (calls env n (apply_job l pvc b o)) ≡ true
      → (owner : OwnerReference) × (fpvc : FluentPvc) × (o ≡ some owner)
        × (env n (get_fluent_pvc owner.name) ≡ success fpvc)
  unfolding apply_job
  apply_job-application n none h = cc
  apply_job-application n (some owner) h = elim (Reply-cases (env n (get_fluent_pvc owner.name))) [
    | inl (fpvc, p) ↦ (owner, fpvc, refl, p)
    | inr (e, p) ↦ absurd (ground arith)
  ]

  on_jobs-application :
      (n : ℕ) (r : Reply (List Job))
      → any is_application (calls env n (on_jobs l pvc b r)) ≡ true
      → (no_jobs l r ≡ true)
        × (any is_application (calls env n (apply_job l pvc b (l.get_controller_of b.meta))) ≡ true)
  unfolding on_jobs
  on_jobs-application n (success []) h = (refl, h)
  on_jobs-application n (success (j ∷ js)) h = cc
  on_jobs-application n (failure e) h = ground arith

  on_binding-application :
      (n : ℕ)
      → any is_application (calls env n (on_binding l pvc (success b))) ≡ true
      → NeedsJob l pvc b
        × (any is_application (calls env (suc n) (on_jobs l pvc b (env n (list_jobs b.meta.name))))
            ≡ true)
  unfolding on_binding
  on_binding-application n h = ground (arith, release-application n, when_applied-application n)

module _ (l : Library) (env : Environment) (req : ObjectKey) where
  -- The reads of a run that ends in an application.
  pub record ReadsForJob (pvc : PersistentVolumeClaim) (b : FluentPvcBinding)
      (owner : OwnerReference) (fpvc : FluentPvc) : Type 0 where
    pub pvc_read : env 0 (get_pvc req) ≡ success pvc
    pub binding_read : env 1 (get_binding (binding_key req pvc)) ≡ success b
    pub needs_job : NeedsJob l pvc b
    pub none_listed : no_jobs l (env 2 (list_jobs b.meta.name)) ≡ true
    pub controller : l.get_controller_of b.meta ≡ some owner
    pub fluent_pvc_read : env 3 (get_fluent_pvc owner.name) ≡ success fpvc

  abbrev pub JustifiedApplication : Type 0
  JustifiedApplication =
      (pvc : PersistentVolumeClaim) × (b : FluentPvcBinding) × (owner : OwnerReference)
      × (fpvc : FluentPvc) × ReadsForJob pvc b owner fpvc

  -- The run makes the four reads and then creates or updates the job of the binding's name by a
  -- mutate function that makes of the job `found`, if it can have the binding for its owner, a
  -- finalizer job.
  pub record Applies (pvc : PersistentVolumeClaim) (b : FluentPvcBinding) (owner : OwnerReference)
      (fpvc : FluentPvc) (found : Job) : Type 0 where
    pub job : Job
    pub mutate : Job → Outcome Job
    pub rest : List Call
    pub calls_made :
        calls env 0 (reconcile l req)
        ≡ get_pvc req
          ∷ get_binding (record { namespace = req.namespace; name = pvc.meta.name })
          ∷ list_jobs b.meta.name
          ∷ get_fluent_pvc owner.name
          ∷ create_or_update_job job mutate
          ∷ rest
    pub job_name : job.meta.name ≡ b.meta.name
    pub job_namespace : job.meta.namespace ≡ b.meta.namespace
    pub applied : Job
    pub is_applied : mutate found ≡ ok applied
    pub finalizes : IsFinalizerJob l b pvc fpvc applied
    pub same_version : SameVersion applied.meta found.meta

  -- Whatever the server answers, a run applies a finalizer job only after it read the claim and a
  -- binding with the claim's UID that does not miss its pod, is known, is out of use and has no job
  -- applied, read that no job is listed, and read the FluentPVC that controls the binding; and
  -- these are the first calls of the run, in this order.
  pub application_only_if_needed :
      any is_application (calls env 0 (reconcile l req)) ≡ true → JustifiedApplication
  unfolding reconcile
  application_only_if_needed h = elim (Reply-cases (env 0 (get_pvc req))) [
    | inl (pvc, p) ↦ elim (Reply-cases (env 1 (get_binding (binding_key req pvc)))) [
      | inl (b, q) ↦
          let (needs, more) = on_binding-application l env pvc b 2 (rw (p, q) at h) in
          let (listed, last) =
            on_jobs-application l env pvc b 3 (env 2 (list_jobs b.meta.name)) more in
          let (owner, fpvc, o, r) =
            apply_job-application l env pvc b 3 (l.get_controller_of b.meta) last in
          (
            pvc,
            b,
            owner,
            fpvc,
            record {
              pvc_read = p;
              binding_read = q;
              needs_job = needs;
              none_listed = listed;
              controller = o;
              fluent_pvc_read = r;
            },
          )
      | inr (e, q) ↦ absurd (ground arith)
    ]
    | inr (e, p) ↦ absurd (ground arith)
  ]
