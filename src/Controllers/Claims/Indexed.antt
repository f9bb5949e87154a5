-- ===== src/Controllers/Claims/Indexed.antt =====
-- A finalizer job under the index by its owner, controllers/pvc_controller.go with
-- controllers/utils.go.
use mathlib.Core.List.{Memᴰ}
use fluent_pvc_operator.Prelude.{
  ℕ, String, ◌≡◌, refl, sym, ap, false, List, [], ◌∷◌, arith, any, ◌==◌, if◌then◌else◌, eq_refl,
  Bool-cases, inl, inr,
}
use fluent_pvc_operator.Kube.{
  Library, LibraryLaws, PersistentVolumeClaim, Job, ObjectMeta, Outcome, ok, err, panicked, success,
  ObjectKey,
}
use fluent_pvc_operator.Api.{FluentPvc, FluentPvcBinding, group_version}
use fluent_pvc_operator.Effect.{calls, Environment, list_jobs, get_binding}
use fluent_pvc_operator.Controllers.Utils.{
  index_job_by_owner_fluent_pvc_binding, is_owner_fluent_pvc_binding,
}
use fluent_pvc_operator.Controllers.Claims.{mutate_job, with_meta, reconcile}
use fluent_pvc_operator.Controllers.Claims.Application.{
  is_application, no_jobs, application_only_if_needed,
}

with_meta-ok :
    (j j' : Job) (r : Outcome ObjectMeta)
    → with_meta j r ≡ ok j'
    → (m : ObjectMeta) × (r ≡ ok m) × (j'.meta ≡ m)
with_meta-ok j j' (ok m) h = (m, refl, ground arith)
with_meta-ok j j' (err e) h = cc
with_meta-ok j j' panicked h = cc

module _ (l : Library) where
  -- What a list by an index shows of the stored jobs.
  abbrev pub indexed_jobs : String → List Job → List Job
  indexed_jobs key [] = []
  indexed_jobs key (j ∷ js) =
      let rest = indexed_jobs key js in
      if any (λ k. k == key) (index_job_by_owner_fluent_pvc_binding l j) then j ∷ rest else rest

  indexed_jobs-some :
      (key : String) (j : Job) (js : List Job)
      → index_job_by_owner_fluent_pvc_binding l j ≡ key ∷ []
      → Memᴰ j js
      → no_jobs l (success (indexed_jobs key js)) ≡ false
  indexed_jobs-some key j (k ∷ js) h (Memᴰ.head e) =
      ground (arith, h, sym (ap (index_job_by_owner_fluent_pvc_binding l) e), eq_refl key)
  indexed_jobs-some key j [] h stays = elim stays [ ]
  indexed_jobs-some key j (k ∷ js) h (Memᴰ.tail later) =
      ground (arith, indexed_jobs-some key j js h later)

  module _ (laws : LibraryLaws l)
      (scheme : l.api_version_of "FluentPVCBinding" ≡ group_version) where
    index-mutate_job :
        (b : FluentPvcBinding) (fpvc : FluentPvc) (pvc : PersistentVolumeClaim) (j j' : Job)
        → mutate_job l b fpvc pvc j ≡ ok j'
        → index_job_by_owner_fluent_pvc_binding l j' ≡ b.meta.name ∷ []
    unfolding mutate_job index_job_by_owner_fluent_pvc_binding is_owner_fluent_pvc_binding
    index-mutate_job b fpvc pvc j j' h =
        let (m, e, same) = with_meta-ok (record j { spec = _ }) j' _ h in
        let owner = laws.controller-set_controller "FluentPVCBinding" b.meta j.meta m e in
        rw same (rw owner (rw scheme refl))

    -- Where the scheme gives FluentPVCBinding the operator's group and version, and the server
    -- lists the stored jobs by the index of their owner: if a job that the mutate function made for
    -- a binding is among the stored ones, then no run that reads only bindings of that name applies
    -- a job.
    pub no_second_job :
        (env : Environment) (req : ObjectKey) (stored : List Job) (b : FluentPvcBinding)
        (fpvc : FluentPvc) (pvc : PersistentVolumeClaim) (j j' : Job)
        → mutate_job l b fpvc pvc j ≡ ok j'
        → Memᴰ j' stored
        → ((n : ℕ) (key : String) → env n (list_jobs key) ≡ success (indexed_jobs key stored))
        → ((n : ℕ) (key : ObjectKey) (read : FluentPvcBinding)
            → env n (get_binding key) ≡ success read
            → read.meta.name ≡ b.meta.name)
        → any is_application (calls env 0 (reconcile l req)) ≡ false
    no_second_job env req stored b fpvc pvc j j' made stays lists reads =
        elim (Bool-cases (any is_application (calls env 0 (reconcile l req)))) [
          | inr none_applied ↦ none_applied
          | inl applies ↦
              let (pvc', b', owner, fpvc', needed) = application_only_if_needed l env req applies in
              let same = reads 1 _ b' needed.binding_read in
              let index = index-mutate_job b fpvc pvc j j' made in
              absurd (
                ground (
                  arith,
                  lists 2 b'.meta.name,
                  needed.none_listed,
                  indexed_jobs-some b'.meta.name j' stored (rw same index) stays,
                ))
        ]
