-- ===== src/Lifecycle/Decisions.antt =====
-- The cases of the binding reconciler against the diagram of the conditions.
use fluent_pvc_operator.Lifecycle.Settings.{Sets}
use fluent_pvc_operator.Controllers.Utils.{is_job_succeeded, is_job_failed, is_created_before, hour}
use fluent_pvc_operator.Effect.{Program}
use fluent_pvc_operator.Prelude.{
  true, not, ◌≡◌, refl, List, [], ◌∷◌, arith, false, Option, ◌*◌, is_some, ◌&&◌, none, some, ◌⊎◌,
  inl, ap, inr,
}
use fluent_pvc_operator.Kube.{
  Library, LibraryLaws, Job, Reply, success, failure, PodPhase, pod_succeeded, Pod, pod_failed,
  PersistentVolumeClaim, pod_running, SameVersion,
}
use fluent_pvc_operator.Api.{
  FluentPvcBinding, is_condition_out_of_use, is_condition_ready, is_condition_pod_missing,
  is_condition_finalizer_job_succeeded, fluent_pvc_binding_finalizer_name,
}
use fluent_pvc_operator.Controllers.Bindings.{
  on_completed, on_jobs, update_condition_by_finalizer_job_status, on_pod_and_claim,
  on_pod_without_claim, on_found, on_unborn, decide, is_lost, is_protected,
  delete_fluent_pvc_binding,
}
use fluent_pvc_operator.Lifecycle.Flags.{flags, holds, Flags}
use fluent_pvc_operator.Lifecycle.Steps.{
  Step, IsOpen, IsFinalizing, loses_job, goes_out_of_use, sees_job, becomes_unknown, misses_pod,
  becomes_ready,
}
use fluent_pvc_operator.Lifecycle.Rules.{Saves, Saves-if, Rules}
use fluent_pvc_operator.Lifecycle.Saves.{
  on_no_job-Saves, mark_applied-Saves, succeeded-or-failed, on_many_jobs-Saves,
  out_of_use_pod_completed_pvc_found-Saves, unknown_pod_running_pvc_not_found-Saves,
  unknown_pod_completed_pvc_not_found-Saves, pod_missing_binding_pod_timeout-Saves,
  delete_fluent_pvc_binding-Saves, unknown_pod_and_pvc_not_found-Saves, unknown_pvc_lost-Saves,
  out_of_use_pod_deleted_pvc_found-Saves, ready_pod_found_pvc_found-Saves,
}

-- What a decision on a binding may write: a status of the same version that is a step further, the
-- same status again, and a deletion once no pod has come or the finalizer job has succeeded.
abbrev pub MayBeDeleted : Library → FluentPvcBinding → Type 0
MayBeDeleted l b = ((flags l b).pod_missing ≡ true) ⊎ ((flags l b).finalizer_job_succeeded ≡ true)

abbrev pub Advances : Library → FluentPvcBinding → FluentPvcBinding → Type 0
Advances l b c = SameVersion c.meta b.meta × Step (flags l b) (flags l c)

abbrev pub Rewrites : FluentPvcBinding → FluentPvcBinding → Type 0
Rewrites b c = SameVersion c.meta b.meta × (c.status ≡ b.status)

abbrev pub rules : Library → FluentPvcBinding → Rules
rules l b = record { status = Advances l b; object = Rewrites b; deletion = MayBeDeleted l b }

module _ (l : Library) (laws : LibraryLaws l) (b : FluentPvcBinding) where
  abbrev pub Next : Rules
  Next = rules l b

  abbrev pub Follows : {A : Type 0} → Program A → Type 0
  Follows m = Saves Next m

  advance :
      {g : Flags}
      → ((h : Flags) → h ≡ g → Step (flags l b) h)
      → (c : FluentPvcBinding) → Sets l b c g
      → Advances l b c
  advance f c s =
      ((ap (λ m. m.uid) s.same_meta, ap (λ m. m.resource_version) s.same_meta), f _ s.new_flags)

  delete-Follows : MayBeDeleted l b → Follows (delete_fluent_pvc_binding l b)
  delete-Follows d =
      delete_fluent_pvc_binding-Saves l Next d b
        (laws.version-remove b.meta fluent_pvc_binding_finalizer_name, refl)

  on_jobs-Follows : IsFinalizing (flags l b) → (r : Reply (List Job)) → Follows (on_jobs l b r)
  unfolding on_jobs
  on_jobs-Follows h (failure e) =
      Saves-if Next (l.is_not_found e) _ _
        (λ _. on_no_job-Saves l laws Next b (advance (λ g q. loses_job h q))) (λ _. tt)
  on_jobs-Follows h (success []) = on_no_job-Saves l laws Next b (advance (λ g q. loses_job h q))
  on_jobs-Follows h (success (j ∷ [])) =
      mark_applied-Saves l laws Next b j (
        advance
          (λ g q. sees_job (is_job_succeeded j) (is_job_failed j) (succeeded-or-failed j) h q))
  on_jobs-Follows h (success (j ∷ j' ∷ js)) =
      on_many_jobs-Saves l laws Next b (advance (λ g q. becomes_unknown h.open_binding.known q))

  by_job_status-Follows :
      IsFinalizing (flags l b) → Follows (update_condition_by_finalizer_job_status l b)
  unfolding update_condition_by_finalizer_job_status
  by_job_status-Follows h = (tt, on_jobs-Follows h)

  on_completed-Follows : IsOpen (flags l b) → (flags l b).ready ≡ true → Follows (on_completed l b)
  unfolding on_completed is_condition_out_of_use flags holds
  on_completed-Follows o r =
      Saves-if Next (not (is_condition_out_of_use l b)) _ _
        (λ e.
          out_of_use_pod_completed_pvc_found-Saves l laws Next b
            (advance (λ g q. goes_out_of_use o r (ground arith) q)))
        (λ e.
          by_job_status-Follows (record { open_binding = o; ready = r; out_of_use = ground arith }))

  on_pod_and_claim-Follows :
      IsOpen (flags l b)
      → (flags l b).ready ≡ true
      → (p : PodPhase) → Follows (on_pod_and_claim l b p)
  unfolding on_pod_and_claim
  on_pod_and_claim-Follows o r pod_succeeded = on_completed-Follows o r
  on_pod_and_claim-Follows o r pod_failed = on_completed-Follows o r
  on_pod_and_claim-Follows o r _ = tt

  on_pod_without_claim-Follows :
      (flags l b).unknown ≡ false → (p : PodPhase) → Follows (on_pod_without_claim l b p)
  unfolding on_pod_without_claim
  on_pod_without_claim-Follows k pod_running =
      unknown_pod_running_pvc_not_found-Saves l laws Next b (advance (λ g q. becomes_unknown k q))
  on_pod_without_claim-Follows k pod_succeeded =
      unknown_pod_completed_pvc_not_found-Saves l laws Next b (advance (λ g q. becomes_unknown k q))
  on_pod_without_claim-Follows k pod_failed =
      unknown_pod_completed_pvc_not_found-Saves l laws Next b (advance (λ g q. becomes_unknown k q))
  on_pod_without_claim-Follows k _ = tt

  on_found-Follows :
      IsOpen (flags l b)
      → (pod : Option Pod) (pvc : Option PersistentVolumeClaim)
      → (is_some pod ≡ false → (flags l b).ready ≡ true)
      → Follows (on_found l b pod pvc)
  unfolding on_found is_condition_out_of_use is_condition_ready flags holds
  on_found-Follows o none none r =
      unknown_pod_and_pvc_not_found-Saves l laws Next b (advance (λ g q. becomes_unknown o.known q))
  on_found-Follows o none (some pvc) r =
      Saves-if Next (not (is_condition_out_of_use l b)) _ _
        (λ e.
          out_of_use_pod_deleted_pvc_found-Saves l laws Next b
            (advance (λ g q. goes_out_of_use o (r refl) (ground arith) q)))
        (λ e.
          by_job_status-Follows
            (record { open_binding = o; ready = r refl; out_of_use = ground arith }))
  on_found-Follows o (some pod) none r = on_pod_without_claim-Follows o.known pod.phase
  on_found-Follows o (some pod) (some pvc) r =
      Saves-if Next (not (is_condition_ready l b)) _ _
        (λ e.
          ready_pod_found_pvc_found-Saves l laws Next b
            (advance (λ g q. becomes_ready o (ground arith) q)))
        (λ e. on_pod_and_claim-Follows o (ground arith) pod.phase)

  on_unborn-Follows : IsOpen (flags l b) → (flags l b).ready ≡ false → Follows (on_unborn l b)
  unfolding on_unborn
  on_unborn-Follows o r = (
    tt,
    λ now.
        Saves-if Next (is_created_before now b.meta (1 * hour)) _ _
          (λ e.
            pod_missing_binding_pod_timeout-Saves l laws Next b (advance (λ g q. misses_pod o r q)))
          (λ e. tt),
  )

  -- From a binding that is not unknown, whatever is found and whatever the server answers, every
  -- stored status is a step of the diagram.
  pub decide-Follows :
      (flags l b).unknown ≡ false
      → (pod : Option Pod) (pvc : Option PersistentVolumeClaim) → Follows (decide l b pod pvc)
  unfolding decide is_condition_pod_missing is_condition_finalizer_job_succeeded is_condition_ready
      flags holds
  decide-Follows k pod pvc =
      Saves-if Next (not (is_some pvc) && is_condition_pod_missing l b) _ _
        (λ e. delete-Follows (inl (ground arith)))
        (λ _.
          Saves-if Next (is_lost pvc) _ _
            (λ _. unknown_pvc_lost-Saves l laws Next b (advance (λ g q. becomes_unknown k q)))
            (λ _.
              Saves-if Next (is_condition_finalizer_job_succeeded l b) _ _
                (λ finished.
                  Saves-if Next (is_protected l pvc) _ _ (λ _. tt)
                    (λ _. delete-Follows (inr finished)))
                (λ unfinished.
                  Saves-if Next (not (is_some pod) && not (is_condition_ready l b)) _ _
                    (λ e.
                      on_unborn-Follows (record { known = k; unfinished = unfinished })
                        (ground arith))
                    (λ e.
                      on_found-Follows (record { known = k; unfinished = unfinished }) pod pvc
                        (λ n. ground arith)))))
