-- ===== src/Cluster/Evidence/Decision.antt =====
-- The decision of the binding reconciler rests what it stores on what it has read,
-- controllers/fluentpvcbinding_controller.go.
use fluent_pvc_operator.Cluster.Contracts.{Keeps-if}
use fluent_pvc_operator.Cluster.Evidence.{
  Insight, IsHonest, keeps_success, keeps_success-IsHonest, same_object, same_object-IsHonest,
  proven, Bool, evidence,
}
use fluent_pvc_operator.Controllers.Bindings.{
  on_jobs, on_no_job, mark_applied, on_many_jobs, on_unborn, on_pod_without_claim,
  update_condition_by_finalizer_job_status, on_completed, on_pod_and_claim, on_found,
  delete_fluent_pvc_binding, decide, update_condition_unknown_pod_and_pvc_not_found,
  update_condition_out_of_use_pod_completed_pvc_found,
  update_condition_out_of_use_pod_deleted_pvc_found, is_lost,
  update_condition_ready_pod_found_pvc_found, update_condition_unknown_pvc_lost, is_protected,
}
use fluent_pvc_operator.Lifecycle.Saves.{
  MaySet, on_no_job-Saves, mark_applied-Saves, on_many_jobs-Saves, delete_fluent_pvc_binding-Saves,
  unknown_pod_running_pvc_not_found-Saves, unknown_pod_completed_pvc_not_found-Saves,
  pod_missing_binding_pod_timeout-Saves, unknown_pod_and_pvc_not_found-Saves,
  out_of_use_pod_completed_pvc_found-Saves, out_of_use_pod_deleted_pvc_found-Saves,
  ready_pod_found_pvc_found-Saves, unknown_pvc_lost-Saves,
}
use fluent_pvc_operator.Controllers.Utils.{is_job_succeeded, Result, is_created_before, hour}
use fluent_pvc_operator.Lifecycle.Flags.{flags, Flags}
use fluent_pvc_operator.Lifecycle.Rules.{Saves, Saves-if}
use fluent_pvc_operator.Effect.{Program}
use fluent_pvc_operator.Api.{
  FluentPvcBinding, is_condition_out_of_use, is_condition_pod_missing, is_condition_ready,
  is_condition_finalizer_job_succeeded,
}
use fluent_pvc_operator.Kube.{
  Library, LibraryLaws, Job, Reply, success, failure, Outcome, PodPhase, Pod, pod_succeeded,
  PersistentVolumeClaim, pod_failed, pod_running,
}
use mathlib.Core.List.{Memᴰ}
use fluent_pvc_operator.Prelude.{
  ◌≡◌, refl, ap, ◌∙◌, List, [], ◌∷◌, ◌++◌, if◌then◌else◌, arith, Option, true, ◌*◌, false, none,
  some, not, is_some, ◌&&◌,
}

module _ (l : Library) (laws : LibraryLaws l) (b : FluentPvcBinding) where
  -- Any other setter leaves the success as it is.
  unmarked :
      {g : Flags}
      → g.finalizer_job_succeeded ≡ (flags l b).finalizer_job_succeeded
      → MaySet l laws (keeps_success l b) b g
  unmarked same c s =
      (ap (λ m. m.uid) s.same_meta, ap (λ f. f.finalizer_job_succeeded) s.new_flags ∙ same)

  module _ (k : Insight) (read : Memᴰ b k.bindings) where
    same_success : (m : Program (Outcome Result)) → Saves (keeps_success l b) m → IsHonest l k m
    same_success m = keeps_success-IsHonest l b k m read

  mark_applied-IsHonest :
      (k : Insight) (j : Job) (done : Bool)
      → Memᴰ b k.bindings
      → is_job_succeeded j ≡ done
      → IsHonest l
          (record k { names = (if done then b.meta.name ∷ [] else []) ++ k.names })
          (mark_applied l b j)
  mark_applied-IsHonest k j true read e =
      same_object-IsHonest l b (record k { names = b.meta.name ∷ k.names }) (mark_applied l b j)
        read (Memᴰ.head refl)
        (mark_applied-Saves l laws (same_object l b) b j (λ c s. ap (λ m. m.uid) s.same_meta))
  mark_applied-IsHonest k j false read e =
      same_success k read (mark_applied l b j)
        (mark_applied-Saves l laws (keeps_success l b) b j (unmarked (ground arith)))

  on_jobs-IsHonest :
      (k : Insight)
      → Memᴰ b k.bindings
      → (r : Reply (List Job))
      → IsHonest l (record k { names = proven b.meta.name r ++ k.names }) (on_jobs l b r)
  unfolding on_jobs
  on_jobs-IsHonest k read (failure e) =
      keeps_success-IsHonest l b k (if l.is_not_found e then on_no_job l b else _) read (
        Saves-if (keeps_success l b) (l.is_not_found e) _ _
          (λ _. on_no_job-Saves l laws (keeps_success l b) b (unmarked refl)) (λ _. tt))
  on_jobs-IsHonest k read (success []) =
      same_success k read (on_no_job l b)
        (on_no_job-Saves l laws (keeps_success l b) b (unmarked refl))
  on_jobs-IsHonest k read (success (j ∷ [])) =
      mark_applied-IsHonest k j (is_job_succeeded j) read refl
  on_jobs-IsHonest k read (success (j ∷ j' ∷ js)) =
      same_success k read (on_many_jobs l b)
        (on_many_jobs-Saves l laws (keeps_success l b) b (unmarked refl))

  on_unborn-Saves : Saves (keeps_success l b) (on_unborn l b)
  unfolding on_unborn
  on_unborn-Saves = (
    tt,
    λ now.
        Saves-if (keeps_success l b) (is_created_before now b.meta (1 * hour)) _ _
          (λ _. pod_missing_binding_pod_timeout-Saves l laws (keeps_success l b) b (unmarked refl))
          (λ _. tt),
  )

  on_pod_without_claim-Saves :
      (p : PodPhase) → Saves (keeps_success l b) (on_pod_without_claim l b p)
  unfolding on_pod_without_claim
  on_pod_without_claim-Saves pod_running =
      unknown_pod_running_pvc_not_found-Saves l laws (keeps_success l b) b (unmarked refl)
  on_pod_without_claim-Saves pod_succeeded =
      unknown_pod_completed_pvc_not_found-Saves l laws (keeps_success l b) b (unmarked refl)
  on_pod_without_claim-Saves pod_failed =
      unknown_pod_completed_pvc_not_found-Saves l laws (keeps_success l b) b (unmarked refl)
  on_pod_without_claim-Saves _ = tt

  module _ (k : Insight) (read : Memᴰ b k.bindings) where
    by_job_status-IsHonest : IsHonest l k (update_condition_by_finalizer_job_status l b)
    unfolding update_condition_by_finalizer_job_status
    by_job_status-IsHonest = (tt, λ r _. on_jobs-IsHonest k read r)

    on_completed-IsHonest : IsHonest l k (on_completed l b)
    unfolding on_completed
    on_completed-IsHonest =
        Keeps-if (evidence l) k _ (not (is_condition_out_of_use l b)) _ _
          (λ _.
            same_success k read (update_condition_out_of_use_pod_completed_pvc_found l b) (
              out_of_use_pod_completed_pvc_found-Saves l laws (keeps_success l b) b
                (unmarked refl)))
          (λ _. by_job_status-IsHonest)

    on_pod_and_claim-IsHonest : (p : PodPhase) → IsHonest l k (on_pod_and_claim l b p)
    unfolding on_pod_and_claim
    on_pod_and_claim-IsHonest pod_succeeded = on_completed-IsHonest
    on_pod_and_claim-IsHonest pod_failed = on_completed-IsHonest
    on_pod_and_claim-IsHonest _ = tt

    on_found-IsHonest :
        (pod : Option Pod) (pvc : Option PersistentVolumeClaim)
        → IsHonest l k (on_found l b pod pvc)
    unfolding on_found
    on_found-IsHonest none none =
        same_success k read (update_condition_unknown_pod_and_pvc_not_found l b)
          (unknown_pod_and_pvc_not_found-Saves l laws (keeps_success l b) b (unmarked refl))
    on_found-IsHonest none (some pvc) =
        Keeps-if (evidence l) k _ (not (is_condition_out_of_use l b)) _ _
          (λ _.
            same_success k read (update_condition_out_of_use_pod_deleted_pvc_found l b)
              (out_of_use_pod_deleted_pvc_found-Saves l laws (keeps_success l b) b (unmarked refl)))
          (λ _. by_job_status-IsHonest)
    on_found-IsHonest (some pod) none =
        same_success k read (on_pod_without_claim l b pod.phase)
          (on_pod_without_claim-Saves pod.phase)
    on_found-IsHonest (some pod) (some pvc) =
        Keeps-if (evidence l) k _ (not (is_condition_ready l b)) _ _
          (λ _.
            same_success k read (update_condition_ready_pod_found_pvc_found l b)
              (ready_pod_found_pvc_found-Saves l laws (keeps_success l b) b (unmarked refl)))
          (λ _. on_pod_and_claim-IsHonest pod.phase)

    delete-IsHonest : IsHonest l k (delete_fluent_pvc_binding l b)
    delete-IsHonest =
        same_success k read (delete_fluent_pvc_binding l b)
          (delete_fluent_pvc_binding-Saves l (keeps_success l b) tt b tt)

    pub decide-IsHonest :
        (pod : Option Pod) (pvc : Option PersistentVolumeClaim) → IsHonest l k (decide l b pod pvc)
    unfolding decide
    decide-IsHonest pod pvc =
        Keeps-if (evidence l) k _ (not (is_some pvc) && is_condition_pod_missing l b) _ _
          (λ _. delete-IsHonest)
          (λ _.
            Keeps-if (evidence l) k _ (is_lost pvc) _ _
              (λ _.
                same_success k read (update_condition_unknown_pvc_lost l b)
                  (unknown_pvc_lost-Saves l laws (keeps_success l b) b (unmarked refl)))
              (λ _.
                Keeps-if (evidence l) k _ (is_condition_finalizer_job_succeeded l b) _ _
                  (λ _.
                    Keeps-if (evidence l) k _ (is_protected l pvc) _ _ (λ _. tt)
                      (λ _. delete-IsHonest))
                  (λ _.
                    Keeps-if (evidence l) k _ (not (is_some pod) && not (is_condition_ready l b)) _
                      _ (λ _. same_success k read (on_unborn l b) on_unborn-Saves)
                      (λ _. on_found-IsHonest pod pvc))))
