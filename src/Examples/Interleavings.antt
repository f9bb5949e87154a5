-- ===== src/Examples/Interleavings.antt =====
-- The theorems on the operator as a whole at concrete inputs.
use fluent_pvc_operator.Cluster.Finishing.{
  IsExplained, stored_success-succeeded_names, unprotected_claim-IsExplained,
}
use fluent_pvc_operator.Examples.JobLaws.{job_laws}
use fluent_pvc_operator.Cluster.Custody.{LostFinalizer}
use fluent_pvc_operator.Examples.ServerLaws.{server_laws, claim_laws}
use fluent_pvc_operator.Hash.{compute_hash}
use mathlib.Core.List.{Memᴰ}
use fluent_pvc_operator.Examples.Data.{out_of_use, claim}
use fluent_pvc_operator.Controllers.Claims.Release.{MayRelease, unprotected}
use fluent_pvc_operator.Examples.Data.{codec}
use fluent_pvc_operator.Controllers.Claims.{new_job}
use fluent_pvc_operator.Controllers.Utils.{is_job_succeeded, is_job_failed}
use fluent_pvc_operator.Cluster.Duties.{OwesJob}
use fluent_pvc_operator.Lifecycle.Decisions.{MayBeDeleted}
use fluent_pvc_operator.Cluster.Consequences.{
  NamesClaim, IsOver, IsSettled, deleted_binding-IsOver, IsLeft, released_claim-IsSettled,
  applied_job-IsLeft,
}
use fluent_pvc_operator.Examples.Server.{server, claim_store, job_record, binding_name}
use fluent_pvc_operator.Lifecycle.Flags.{flags}
use fluent_pvc_operator.Cluster.Safety.{
  StillHolds, stored_version-IsOrdered, newest_version-Lasts, stored_statuses-IsPath,
}
use fluent_pvc_operator.Lifecycle.Steps.{IsOrdered}
use fluent_pvc_operator.Examples.Libraries.{library, library_laws}
use fluent_pvc_operator.Kube.{lookup_key, PersistentVolumeClaim}
use fluent_pvc_operator.Cluster.Versions.{IsPath, Lasts}
use fluent_pvc_operator.Api.{
  FluentPvcBinding, is_condition_pod_missing, is_condition_finalizer_job_succeeded,
}
use fluent_pvc_operator.Effect.{ret, update_pvc}
use fluent_pvc_operator.Cluster.Processes.{Process}
use fluent_pvc_operator.Prelude.{List, ◌∷◌, [], refl, ◌≡◌, true}
use fluent_pvc_operator.Controllers.Bindings
use fluent_pvc_operator.Controllers.Claims
use fluent_pvc_operator.Webhooks.PodMutator
use fluent_pvc_operator.Examples.Schedule.{
  about_to_release, about_to_delete, about_to_apply, pod_left, pod_missed, finished,
}

abbrev head_of : List Process → Process
head_of [] = record { seen = []; rest = ret tt }
head_of (p ∷ ps) = p

abbrev left_version : FluentPvcBinding
left_version = newest_of (server.versions pod_left.state "u4")
  where
    newest_of : List FluentPvcBinding → FluentPvcBinding
    newest_of [] = out_of_use
    newest_of (b ∷ bs) = b

abbrev created_version : FluentPvcBinding
created_version = oldest_of (server.versions pod_left.state "u4")
  where
    oldest_of : List FluentPvcBinding → FluentPvcBinding
    oldest_of [] = out_of_use
    oldest_of (b ∷ []) = b
    oldest_of (b ∷ c ∷ bs) = oldest_of (c ∷ bs)

stored_statuses-IsPath_example : IsPath library (server.versions pod_missed.state "u4")
stored_statuses-IsPath_example =
    stored_statuses-IsPath codec library server library_laws server_laws pod_missed.reach "u4"

stored_version-IsOrdered_example : IsOrdered (flags library left_version)
unfolding Bindings.reconcile PodMutator.handle PodMutator.new_binding lookup_key library
stored_version-IsOrdered_example =
    stored_version-IsOrdered codec library server library_laws server_laws pod_left.reach "u4"
      left_version (Memᴰ.head refl)

newest_version-Lasts_example : Lasts (flags library created_version) (flags library left_version)
unfolding Bindings.reconcile PodMutator.handle PodMutator.new_binding lookup_key library
newest_version-Lasts_example =
    newest_version-Lasts codec library server library_laws server_laws pod_left.reach "u4"
      created_version left_version _ refl (Memᴰ.tail (Memᴰ.tail (Memᴰ.head refl)))

released_claim-IsSettled_example :
    StillHolds library server about_to_release.state
      (λ b. NamesClaim "u3" b × MayRelease library b)
      IsSettled
unfolding Bindings.reconcile PodMutator.handle PodMutator.new_binding lookup_key library
    Claims.reconcile is_condition_pod_missing
released_claim-IsSettled_example =
    released_claim-IsSettled library codec server library_laws server_laws about_to_release.reach
      (head_of about_to_release.processes) (Memᴰ.head refl) (update_pvc (unprotected library claim))
      "u3" refl refl

deleted_binding-IsOver_example :
    StillHolds library server about_to_delete.state (MayBeDeleted library) IsOver
unfolding Bindings.reconcile PodMutator.handle PodMutator.new_binding lookup_key library
    PodMutator.new_claim PodMutator.claim_name compute_hash
deleted_binding-IsOver_example =
    deleted_binding-IsOver library codec server library_laws server_laws about_to_delete.reach
      (head_of about_to_delete.processes) (Memᴰ.head refl) _ _ refl

applied_job-IsLeft_example :
    StillHolds library server about_to_apply.state (OwesJob library (new_job left_version)) IsLeft
unfolding Bindings.reconcile PodMutator.handle PodMutator.new_binding lookup_key library
    Claims.reconcile
applied_job-IsLeft_example =
    applied_job-IsLeft library codec server library_laws server_laws about_to_apply.reach
      (head_of about_to_apply.processes) (Memᴰ.head refl) (new_job left_version) _ refl

abbrev success_version : FluentPvcBinding
success_version = newest_of (server.versions finished.state "u4")
  where
    newest_of : List FluentPvcBinding → FluentPvcBinding
    newest_of [] = out_of_use
    newest_of (b ∷ bs) = b

has_succeeded : is_condition_finalizer_job_succeeded library success_version ≡ true
unfolding Bindings.reconcile PodMutator.handle PodMutator.new_binding lookup_key library
    Claims.reconcile is_job_succeeded is_job_failed is_condition_finalizer_job_succeeded
has_succeeded = refl

stored_success-succeeded_names_example : job_record.succeeded_names finished.state binding_name
unfolding Bindings.reconcile PodMutator.handle PodMutator.new_binding lookup_key library
    Claims.reconcile is_job_succeeded is_job_failed
stored_success-succeeded_names_example =
    stored_success-succeeded_names codec library server job_record library_laws server_laws job_laws
      finished.reach "u4" success_version (Memᴰ.head refl) has_succeeded

abbrev finished_claims : List PersistentVolumeClaim
finished_claims = claim_store.claims finished.state "u3"

finally_lost : LostFinalizer library finished_claims
unfolding Bindings.reconcile PodMutator.handle PodMutator.new_binding lookup_key library
    Claims.reconcile is_job_succeeded is_job_failed PodMutator.new_claim
finally_lost = record {
  had = _;
  newest = _;
  older = _;
  are_versions = refl;
  had_stored = Memᴰ.tail (Memᴰ.head refl);
  had_finalizer = refl;
  newest_without = refl;
}

unprotected_claim-IsExplained_example : IsExplained library server job_record finished.state "u3"
unprotected_claim-IsExplained_example =
    unprotected_claim-IsExplained codec library server job_record library_laws server_laws job_laws
      claim_store claim_laws finished.reach "u3" finally_lost
