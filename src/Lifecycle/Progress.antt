-- ===== src/Lifecycle/Progress.antt =====
-- How a binding whose pod is gone comes to its end, controllers/fluentpvcbinding_controller.go.
use fluent_pvc_operator.Lifecycle.Flags.{
  Flags, flags, flags-set_finalizer_job_succeeded, holds, flags-set_finalizer_job_applied,
  flags-set_out_of_use,
}
use fluent_pvc_operator.Lifecycle.Saves.{succeeded-or-failed}
use fluent_pvc_operator.Controllers.Bindings.{
  save, mark_failed, mark_succeeded, mark_applied, decide, save_if, on_found, is_lost,
  update_condition_by_finalizer_job_status, job_succeeded_reason, job_succeeded_message, on_jobs,
  job_applied_reason, job_applied_message, update_condition_out_of_use_pod_deleted_pvc_found,
}
use fluent_pvc_operator.Controllers.Utils.{is_job_succeeded, is_job_failed}
use fluent_pvc_operator.Effect.{
  Call, Environment, update_binding_status, list_jobs, calls, time_now, call,
}
use fluent_pvc_operator.Api.{
  FluentPvcBinding, is_condition_finalizer_job_applied, is_condition_finalizer_job_succeeded,
  is_condition_out_of_use, is_condition_ready, set_condition_finalizer_job_applied,
}
use fluent_pvc_operator.Kube.{Library, LibraryLaws, Job, PersistentVolumeClaim, success}
use fluent_pvc_operator.Prelude.{
  ℕ, suc, Bool, true, false, ◌≡◌, refl, ap, ◌∙◌, List, [], ◌∷◌, some, none, arith, inl, inr,
  Bool-cases, if◌then◌else◌, sym,
}

-- The flags of the statuses that are stored, in order.
abbrev pub stored_flags : Library → List Call → List Flags
stored_flags l [] = []
stored_flags l (update_binding_status c ∷ cs) = flags l c ∷ stored_flags l cs
stored_flags l (_ ∷ cs) = stored_flags l cs

abbrev pub finished_flags : Flags → Flags
finished_flags f = record f { finalizer_job_applied = true; finalizer_job_succeeded = true }

-- The flags after the next run on a binding that is ready, whose pod is gone, and whose job has
-- succeeded.
abbrev pub next_flags : Flags → Flags
next_flags f = if f.out_of_use then finished_flags f else record f { out_of_use = true }

finished_flags-applied :
    (f : Flags)
    → f.finalizer_job_applied ≡ true
    → record f { finalizer_job_succeeded = true } ≡ finished_flags f
finished_flags-applied f e = rw e refl

next_flags-left : (f : Flags) → f.out_of_use ≡ true → next_flags f ≡ finished_flags f
next_flags-left f e = rw e refl

pub next_flags-used :
    (f : Flags) → f.out_of_use ≡ false → next_flags f ≡ record f { out_of_use = true }
next_flags-used f e = rw e refl

-- The branches that the runs take.
module _ (l : Library) (b : FluentPvcBinding) where
  mark_applied-seen :
      (j : Job)
      → is_condition_finalizer_job_applied l b ≡ true
      → mark_applied l b j ≡ mark_succeeded l false b j
  unfolding mark_applied
  mark_applied-seen j e = rw e refl

  mark_applied-unseen :
      (j : Job)
      → is_condition_finalizer_job_applied l b ≡ false
      → mark_applied l b j
        ≡ call time_now (λ now.
          mark_succeeded l true
            (set_condition_finalizer_job_applied l now b job_applied_reason job_applied_message)
            j)
  unfolding mark_applied
  mark_applied-unseen j e = rw e refl

  module _ (pvc : PersistentVolumeClaim) where
    on_found-left :
        is_condition_out_of_use l b ≡ true
        → on_found l b none (some pvc) ≡ update_condition_by_finalizer_job_status l b
    unfolding on_found
    on_found-left e = rw e refl

    on_found-used :
        is_condition_out_of_use l b ≡ false
        → on_found l b none (some pvc) ≡ update_condition_out_of_use_pod_deleted_pvc_found l b
    unfolding on_found
    on_found-used e = rw e refl

    decide-found :
        is_condition_ready l b ≡ true
        → is_condition_finalizer_job_succeeded l b ≡ false
        → is_lost (some pvc) ≡ false
        → decide l b none (some pvc) ≡ on_found l b none (some pvc)
    unfolding decide
    decide-found ready unfinished kept = rw kept (rw unfinished (rw ready refl))

module _ (l : Library) (laws : LibraryLaws l) (env : Environment) where
  save-stored :
      (n : ℕ) (b : FluentPvcBinding) → stored_flags l (calls env n (save b)) ≡ flags l b ∷ []
  unfolding save
  save-stored n b = refl

  mark_failed-stored :
      (n : ℕ) (b : FluentPvcBinding) (j : Job)
      → is_job_failed j ≡ false
      → stored_flags l (calls env n (mark_failed l true b j)) ≡ flags l b ∷ []
  unfolding mark_failed save_if
  mark_failed-stored n b j e = rw e (save-stored n b)

  mark_succeeded-stored :
      (n : ℕ) (need : Bool) (b : FluentPvcBinding) (j : Job)
      → is_job_succeeded j ≡ true
      → stored_flags l (calls env n (mark_succeeded l need b j))
        ≡ record (flags l b) { finalizer_job_succeeded = true } ∷ []
  unfolding mark_succeeded
  mark_succeeded-stored n need b j e = rw e (
      mark_failed-stored (suc n) _ j (ground (arith, succeeded-or-failed j, e))
      ∙ ap (λ f. f ∷ [])
          (flags-set_finalizer_job_succeeded l laws (env n time_now) b job_succeeded_reason
            job_succeeded_message))

  mark_applied-stored :
      (n : ℕ) (b : FluentPvcBinding) (j : Job)
      → is_job_succeeded j ≡ true
      → stored_flags l (calls env n (mark_applied l b j)) ≡ finished_flags (flags l b) ∷ []
  unfolding flags holds is_condition_finalizer_job_applied
  mark_applied-stored n b j e = elim (Bool-cases (is_condition_finalizer_job_applied l b)) [
    | inl applied ↦
        ap (λ m. stored_flags l (calls env n m)) (mark_applied-seen l b j applied)
        ∙ mark_succeeded-stored n false b j e
        ∙ ap (λ f. f ∷ []) (finished_flags-applied (flags l b) applied)
    | inr unapplied ↦
        ap (λ m. stored_flags l (calls env n m)) (mark_applied-unseen l b j unapplied)
        ∙ mark_succeeded-stored (suc n) true _ j e
        ∙ ap (λ (f : Flags). record f { finalizer_job_succeeded = true } ∷ [])
            (flags-set_finalizer_job_applied l laws (env n time_now) b job_applied_reason
              job_applied_message)
  ]

  by_job-stored :
      (n : ℕ) (b : FluentPvcBinding) (j : Job)
      → env n (list_jobs b.meta.name) ≡ success (j ∷ [])
      → is_job_succeeded j ≡ true
      → stored_flags l (calls env n (update_condition_by_finalizer_job_status l b))
        ≡ finished_flags (flags l b) ∷ []
  unfolding update_condition_by_finalizer_job_status on_jobs
  by_job-stored n b j listed done = rw listed (mark_applied-stored (suc n) b j done)

  out_of_use-stored :
      (n : ℕ) (b : FluentPvcBinding)
      → stored_flags l (calls env n (update_condition_out_of_use_pod_deleted_pvc_found l b))
        ≡ record (flags l b) { out_of_use = true } ∷ []
  unfolding update_condition_out_of_use_pod_deleted_pvc_found
  out_of_use-stored n b = ap (λ f. f ∷ []) (flags-set_out_of_use l laws (env n time_now) b _ _)

  on_found-advances :
      (n : ℕ) (b : FluentPvcBinding) (pvc : PersistentVolumeClaim) (j : Job)
      → env n (list_jobs b.meta.name) ≡ success (j ∷ [])
      → is_job_succeeded j ≡ true
      → stored_flags l (calls env n (on_found l b none (some pvc))) ≡ next_flags (flags l b) ∷ []
  unfolding flags holds is_condition_out_of_use
  on_found-advances n b pvc j listed done = elim (Bool-cases (is_condition_out_of_use l b)) [
    | inl left ↦
        ap (λ m. stored_flags l (calls env n m)) (on_found-left l b pvc left)
        ∙ by_job-stored n b j listed done
        ∙ ap (λ f. f ∷ []) (sym (next_flags-left (flags l b) left))
    | inr used ↦
        ap (λ m. stored_flags l (calls env n m)) (on_found-used l b pvc used)
        ∙ out_of_use-stored n b
        ∙ ap (λ f. f ∷ []) (sym (next_flags-used (flags l b) used))
  ]

  -- Of a binding that is ready and not finalized with success, whose pod is gone and whose claim is
  -- there and not lost: if the server lists just one job when the run of the decision begins, at
  -- call n, and it has succeeded, then the run stores one status. If the binding was out of use,
  -- the job is applied and succeeded in it, and otherwise the binding is out of use in it; every
  -- other flag is as before.
  pub decide-advances :
      (n : ℕ) (b : FluentPvcBinding) (pvc : PersistentVolumeClaim) (j : Job)
      → (flags l b).ready ≡ true
      → (flags l b).finalizer_job_succeeded ≡ false
      → is_lost (some pvc) ≡ false
      → env n (list_jobs b.meta.name) ≡ success (j ∷ [])
      → is_job_succeeded j ≡ true
      → stored_flags l (calls env n (decide l b none (some pvc))) ≡ next_flags (flags l b) ∷ []
  unfolding flags holds is_condition_ready is_condition_finalizer_job_succeeded
  decide-advances n b pvc j ready unfinished kept listed done =
      ap (λ m. stored_flags l (calls env n m)) (decide-found l b pvc ready unfinished kept)
      ∙ on_found-advances n b pvc j listed done
