-- ===== src/Controllers/Utils.antt =====
-- controllers/utils.go
use fluent_pvc_operator.Prelude.{
  ℕ, ◌-◌, ◌*◌, ◌^◌, String, Bool, true, false, ◌&&◌, ◌||◌, Option, none, some, List, [], ◌∷◌, ◌==◌,
  ltb, if◌then◌else◌,
}
use fluent_pvc_operator.Kube.{
  Reply, success, failure, Outcome, ok, err, api, wrap, Library, ObjectMeta, OwnerReference,
  DeleteOptions, background, Pod, PodPhase, pod_running, ContainerStatus, Job, JobCondition,
  JobConditionType, job_complete, job_failed, job_suspended, no_type, status_is_true,
}
use fluent_pvc_operator.Api.{FluentPvcBinding, group_version}

-- ctrl.Request and ctrl.Result; durations are nanoseconds.
pub record Result : Type 0 where
  pub requeue : Bool
  pub requeue_after : ℕ

abbrev pub no_requeue : Result
no_requeue = record { requeue = false; requeue_after = 0 }

abbrev pub second : ℕ
second = 10 ^ 9

abbrev pub hour : ℕ
hour = 3600 * 10 ^ 9

unfoldable pub requeue_result : ℕ → Result
requeue_result after = record { requeue = true; requeue_after = after }

unfoldable pub delete_options_background : String → String → DeleteOptions
delete_options_background uid resource_version = record {
  uid = some uid;
  resource_version = some resource_version;
  propagation_policy = some background;
}

unfoldable pub is_owner_fluent_pvc_binding : Option OwnerReference → Bool
is_owner_fluent_pvc_binding none = false
is_owner_fluent_pvc_binding (some owner) =
    owner.api_version == group_version && owner.kind == "FluentPVCBinding"

unfoldable pub is_owner_fluent_pvc : Option OwnerReference → Bool
is_owner_fluent_pvc none = false
is_owner_fluent_pvc (some owner) = owner.api_version == group_version && owner.kind == "FluentPVC"

abbrev owner_name : Option OwnerReference → List String
owner_name none = []
owner_name (some owner) = owner.name ∷ []

abbrev pub unexpected : String
unexpected = "Unexpected error occurred.: %w"

-- The keys under which the cache indexes an object.
module _ (l : Library) where
  unfoldable pub index_job_by_owner_fluent_pvc_binding : Job → List String
  unfolding is_owner_fluent_pvc_binding
  index_job_by_owner_fluent_pvc_binding j =
      let owner = l.get_controller_of j.meta in
      if is_owner_fluent_pvc_binding owner then owner_name owner else []

  unfoldable pub index_fluent_pvc_binding_by_owner_fluent_pvc : FluentPvcBinding → List String
  unfolding is_owner_fluent_pvc
  index_fluent_pvc_binding_by_owner_fluent_pvc b =
      let owner = l.get_controller_of b.meta in
      if is_owner_fluent_pvc owner then owner_name owner else []

abbrev pub is_complete : JobConditionType → Bool
is_complete job_complete = true
is_complete job_failed = false
is_complete job_suspended = false
is_complete no_type = false

abbrev pub is_failed : JobConditionType → Bool
is_failed job_complete = false
is_failed job_failed = true
is_failed job_suspended = false
is_failed no_type = false

unfoldable pub get_finished_status_in : List JobCondition → Bool × JobConditionType
get_finished_status_in [] = (false, no_type)
get_finished_status_in (c ∷ cs) =
    if (is_complete c.type || is_failed c.type) && status_is_true c.status
    then (true, c.type)
    else get_finished_status_in cs

unfoldable pub get_finished_status : Job → Bool × JobConditionType
unfolding get_finished_status_in
get_finished_status j = get_finished_status_in j.conditions

unfoldable pub is_job_succeeded : Job → Bool
unfolding get_finished_status
is_job_succeeded j = (get_finished_status j).0 && is_complete (get_finished_status j).1

unfoldable pub is_job_failed : Job → Bool
unfolding get_finished_status
is_job_failed j = (get_finished_status j).0 && is_failed (get_finished_status j).1

abbrev pub is_running : PodPhase → Bool
is_running pod_running = true
is_running _ = false

unfoldable pub is_pod_running_phase : Pod → Bool
is_pod_running_phase pod = is_running pod.phase

unfoldable pub find_container_status_by_name :
    List ContainerStatus → String → Option ContainerStatus
find_container_status_by_name [] name = none
find_container_status_by_name (c ∷ cs) name =
    if c.name == name then some c else find_container_status_by_name cs name

-- A threshold before the epoch is cut off at it; no creation time lies before either.
unfoldable pub is_created_before : ℕ → ObjectMeta → ℕ → Bool
is_created_before now obj duration = ltb obj.creation_timestamp (now - duration)

module _ (l : Library) where
  -- the end of a handler that ignores that its object is gone
  abbrev pub finish_delete : Reply (Unit {0}) → Outcome Result
  finish_delete (success _) = ok no_requeue
  finish_delete (failure e) =
      if l.is_not_found e then ok no_requeue else err (wrap unexpected (api e))
