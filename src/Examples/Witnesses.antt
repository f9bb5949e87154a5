-- ===== src/Examples/Witnesses.antt =====
-- The theorems on the controllers at concrete inputs.
use fluent_pvc_operator.Examples.Data.{succeeded_job}
use fluent_pvc_operator.Controllers.Claims.Indexed.{indexed_jobs, no_second_job}
use mathlib.Core.List.{Memᴰ}
use fluent_pvc_operator.Lifecycle.Completions.{JobSucceeded, decide-stores_success, stores_success}
use fluent_pvc_operator.Lifecycle.Identities.{IsFound, fulfill_fluent_pvc_binding_pod-IsFound}
use fluent_pvc_operator.Lifecycle.Latest.{phase-set_condition_true}
use fluent_pvc_operator.Lifecycle.Histories.{reconcile-AllFollow, steps_from}
use fluent_pvc_operator.Controllers.Claims.{finalizer_pod_spec, mutate_job, new_job}
use fluent_pvc_operator.Lifecycle.Rules.{Obeys}
use fluent_pvc_operator.Controllers.Claims.Finalizing.{
  claim_volume, claim_mount, finalizer_pod_spec_lem,
}
use fluent_pvc_operator.Controllers.Utils.{is_job_succeeded, is_job_failed}
use fluent_pvc_operator.Lifecycle.Phases.{HasNewestPhase, reset_phase_lem}
use fluent_pvc_operator.Lifecycle.Deletions.{MayDelete, is_deletion, decide-deletes_only}
use fluent_pvc_operator.Lifecycle.Fulfilments.{KeepsStatus}
use fluent_pvc_operator.Controllers.FluentPvcs.Protection.{Refinalizes, protection_exact}
use fluent_pvc_operator.Controllers.Pods.Deletion.{
  is_pod_deletion, JustifiedDeletion, deletion_only_if_ended, ReadsEnded, deletion_options,
  deletion_if_ended, EndsAt,
}
use fluent_pvc_operator.Injection.Lookup.{find}
use fluent_pvc_operator.Injection.Specs.{HasVolume, IsMounted, names_of}
use fluent_pvc_operator.Api.{
  is_condition_pod_missing, set_condition_true, is_condition_unknown, is_condition_out_of_use,
  is_condition_finalizer_job_applied, is_condition_finalizer_job_succeeded,
  is_condition_finalizer_job_failed, FluentPvcBinding, group_version,
}
use fluent_pvc_operator.Controllers.Claims.Application.{
  is_application, JustifiedApplication, application_only_if_needed,
}
use fluent_pvc_operator.Lifecycle.Flags.{holds, flags}
use fluent_pvc_operator.Controllers.Bindings.{
  decide, fulfill_fluent_pvc_binding_pod, on_found, update_condition_by_finalizer_job_status,
  on_jobs, mark_applied,
}
use fluent_pvc_operator.Controllers.Pods.{label}
use fluent_pvc_operator.Effect.{
  calls, result, get_pvc, get_pod, get_binding, get_fluent_pvc, update_pvc, delete_pod, Environment,
  list_jobs,
}
use fluent_pvc_operator.Controllers.Claims.Release.{
  JustifiedRelease, is_release, release_only_if_done, unprotected, calls_after_update,
  release_if_done,
}
use fluent_pvc_operator.Prelude.{
  ◌≡◌, refl, true, any, All, ◌∷◌, arith, none, [], some, false, inr, String, ◌<◌,
}
use fluent_pvc_operator.Controllers.Claims
use fluent_pvc_operator.Controllers.Pods
use fluent_pvc_operator.Controllers.FluentPvcs
use fluent_pvc_operator.Controllers.Bindings
use fluent_pvc_operator.Kube.{
  Job, lookup_key, success, has_unique_types, condition_of, ok, Condition,
}
use fluent_pvc_operator.Examples.Libraries.{library, library_laws}
use fluent_pvc_operator.Examples.Data.{
  fpvc, finished, answers, out_of_use, claim, binding, named, pod, app_spec, ended, key, holding,
}

release_runs :
    any is_release (calls (answers finished fpvc) 0 (Claims.reconcile library key)) ≡ true
unfolding Claims.reconcile library
release_runs = refl

release_only_if_done_example : JustifiedRelease library (answers finished fpvc) key
release_only_if_done_example = release_only_if_done library (answers finished fpvc) key release_runs

release_if_done_example :
    calls (answers finished fpvc) 0 (Claims.reconcile library key)
    ≡ get_pvc key
      ∷ get_binding key
      ∷ update_pvc (unprotected library claim)
      ∷ calls_after_update library claim (success (unprotected library claim))
unfolding library holds is_condition_unknown is_condition_out_of_use
    is_condition_finalizer_job_succeeded is_condition_finalizer_job_failed
    is_condition_finalizer_job_applied is_condition_pod_missing
release_if_done_example =
    release_if_done library (answers finished fpvc) key claim finished refl refl refl
      (inr (record { known = refl; out_of_use = refl; succeeded = refl; not_failed = refl })) refl

applies :
    any is_application (calls (answers out_of_use fpvc) 0 (Claims.reconcile library key)) ≡ true
unfolding Claims.reconcile library
applies = refl

application_only_if_needed_example : JustifiedApplication library (answers out_of_use fpvc) key
application_only_if_needed_example =
    application_only_if_needed library (answers out_of_use fpvc) key applies

finalizer_pod_spec_example :
    HasVolume (claim_volume fpvc "fluent-1") (finalizer_pod_spec fpvc "fluent-1" app_spec)
    × IsMounted (claim_mount fpvc) (finalizer_pod_spec fpvc "fluent-1" app_spec)
    × (names_of (finalizer_pod_spec fpvc "fluent-1" app_spec) ≡ "app" ∷ [])
finalizer_pod_spec_example = finalizer_pod_spec_lem fpvc "fluent-1" app_spec

pod_deleted :
    any is_pod_deletion (calls (answers out_of_use fpvc) 0 (Pods.reconcile library key)) ≡ true
unfolding Pods.reconcile library lookup_key
pod_deleted = refl

deletion_only_if_ended_example : JustifiedDeletion (answers out_of_use fpvc) key
deletion_only_if_ended_example =
    deletion_only_if_ended library (answers out_of_use fpvc) key pod_deleted

reads_ended : ReadsEnded (answers out_of_use fpvc) key pod "fluent" fpvc ended
unfolding label find lookup_key
reads_ended =
    (refl, refl, refl, record { running = refl; enabled = refl; found = refl; ended = inr refl })

deletion_if_ended_example :
    (calls (answers out_of_use fpvc) 0 (Pods.reconcile library key)
      ≡ get_pod key ∷ get_fluent_pvc "fluent" ∷ delete_pod pod (deletion_options pod) ∷ [])
    × EndsAt library (success tt) (result (answers out_of_use fpvc) 0 (Pods.reconcile library key))
deletion_if_ended_example =
    deletion_if_ended library (answers out_of_use fpvc) key pod "fluent" fpvc ended reads_ended

protection_exact_example :
    Refinalizes library
      (calls (answers out_of_use fpvc) 0 (FluentPvcs.reconcile library key))
      key
      fpvc
      (out_of_use ∷ [])
protection_exact_example =
    protection_exact library library_laws (answers out_of_use fpvc) key fpvc (out_of_use ∷ []) refl
      refl

answers_keep_status : KeepsStatus (answers out_of_use fpvc)
answers_keep_status n b stored h = ground arith

reconcile-AllFollow_example :
    All
      (Obeys (steps_from library out_of_use))
      (calls (answers out_of_use fpvc) 0 (Bindings.reconcile library key))
reconcile-AllFollow_example =
    reconcile-AllFollow library library_laws (answers out_of_use fpvc) answers_keep_status key
      out_of_use refl

deleted_when_finished :
    any is_deletion (calls (answers finished fpvc) 4 (decide library finished (some pod) none))
    ≡ true
unfolding decide library
deleted_when_finished = refl

decide-deletes_only_example : MayDelete library finished none
decide-deletes_only_example =
    decide-deletes_only library (answers finished fpvc) 4 finished (some pod) none
      deleted_when_finished

search_runs :
    result (answers out_of_use fpvc) 3 (fulfill_fluent_pvc_binding_pod library out_of_use)
    ≡ ok (out_of_use, some pod)
unfolding fulfill_fluent_pvc_binding_pod library
search_runs = refl

fulfill_fluent_pvc_binding_pod-IsFound_example :
    IsFound (answers out_of_use fpvc) 4 out_of_use out_of_use pod
fulfill_fluent_pvc_binding_pod-IsFound_example =
    fulfill_fluent_pvc_binding_pod-IsFound (answers out_of_use fpvc) out_of_use out_of_use pod
      library 3 search_runs

reset_phase_example : HasNewestPhase out_of_use
reset_phase_example = reset_phase_lem out_of_use

dated_before :
    (u : String) (c : Condition)
    → condition_of (holding 1 "Ready" ∷ []) u ≡ some c
    → c.last_transition_time < 9
unfolding condition_of
dated_before u c h = ground arith

phase-set_condition_true_example :
    (set_condition_true library 9 (binding (holding 1 "Ready" ∷ [])) "OutOfUse" "" "").status.phase
    ≡ "OutOfUse"
phase-set_condition_true_example =
    phase-set_condition_true library library_laws 9 (binding (holding 1 "Ready" ∷ [])) "OutOfUse" ""
      "" (unfold has_unique_types in refl) dated_before (unfold holds library condition_of in refl)

-- A job has been applied, and nothing is known of its end.
abbrev applied : FluentPvcBinding
applied = binding (holding 1 "Ready" ∷ holding 2 "OutOfUse" ∷ holding 3 "FinalizerJobApplied" ∷ [])

-- The list of jobs has the one that has succeeded.
abbrev job_done : Environment
job_done n (list_jobs o) = success (succeeded_job ∷ [])
job_done n c = answers applied fpvc n c

stores_when_done :
    any (stores_success library) (calls job_done 4 (decide library applied none (some claim)))
    ≡ true
unfolding decide library on_found update_condition_by_finalizer_job_status on_jobs mark_applied
    is_job_succeeded is_job_failed holds
stores_when_done = refl

decide-stores_success_example : JobSucceeded job_done 4 applied
unfolding flags library
decide-stores_success_example =
    decide-stores_success library library_laws job_done 4 applied refl none (some claim)
      stores_when_done

-- The job that was applied for the binding that is out of use.
abbrev stored_job : Job
stored_job = record {
  meta = record (named "fluent-1" "") {
    resource_version = "";
    owner_references =
        record {
          api_version = group_version;
          kind = "FluentPVCBinding";
          name = "fluent-1";
          uid = "u4";
          controller = some "true";
        }
        ∷ [];
  };
  spec = record (fpvc.spec.pvc_finalizer_job_spec_template) {
    template = finalizer_pod_spec fpvc "fluent-1" app_spec;
  };
  conditions = [];
}

-- It is listed by its index.
abbrev job_stored : Environment
job_stored n (list_jobs key) = success (indexed_jobs library key (stored_job ∷ []))
job_stored n c = answers out_of_use fpvc n c

no_second_job_example :
    any is_application (calls job_stored 0 (Claims.reconcile library key)) ≡ false
unfolding mutate_job library
no_second_job_example =
    no_second_job library library_laws refl job_stored key (stored_job ∷ []) out_of_use fpvc claim
      (new_job out_of_use) stored_job refl (Memᴰ.head refl) (λ n k. refl)
      (λ n k read e. ground arith)
