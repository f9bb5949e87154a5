-- ===== src/Controllers/Claims.antt =====
-- controllers/pvc_controller.go
pub mod Release
pub mod Finalizing
pub mod Mutating
pub mod Application
pub mod Indexed
use fluent_pvc_operator.Prelude.{
  ◌*◌, String, not, ◌&&◌, Option, none, some, List, [], ◌∷◌, ◌==◌, if◌then◌else◌,
}
use fluent_pvc_operator.Kube.{
  Library, ObjectKey, ObjectMeta, OwnerReference, PodSpec, PersistentVolumeClaim, Job, JobSpec,
  Reply, success, failure, api, wrap, Outcome, ok, err, panicked, empty_meta, empty_pod_spec,
}
use fluent_pvc_operator.Api.{
  FluentPvc, FluentPvcBinding, pvc_finalizer_name, is_condition_out_of_use, is_condition_unknown,
  is_condition_pod_missing, is_condition_finalizer_job_applied,
  is_condition_finalizer_job_succeeded, is_condition_finalizer_job_failed,
}
use fluent_pvc_operator.Injection.{
  inject_or_replace_volume, inject_or_replace_volume_mount, inject_volumes, inject_volume_mounts,
  inject_envs,
}
use fluent_pvc_operator.Effect.{
  Program, ret, call, get_pvc, get_binding, get_fluent_pvc, list_jobs, create_or_update_job,
  update_pvc, delete_pvc,
}
use fluent_pvc_operator.Controllers.Utils.{
  Result, no_requeue, second, requeue_result, delete_options_background, unexpected, finish_delete,
}

abbrev pub later : Result
unfolding requeue_result
later = requeue_result (10 * second)

-- The pod specification of a finalizer job: the template with the claim, the common volumes,
-- mounts and variables.
unfoldable pub finalizer_pod_spec : FluentPvc → String → PodSpec → PodSpec
unfolding inject_volumes inject_volume_mounts inject_envs
finalizer_pod_spec fpvc claim_name template =
    let spec = inject_volumes template fpvc.spec.common_volumes in
    let spec' = inject_or_replace_volume spec (record {
      name = fpvc.spec.pvc_volume_name;
      persistent_volume_claim = some claim_name;
      other = "";
    }) in
    let spec'' = inject_volume_mounts spec' fpvc.spec.common_volume_mounts in
    let spec''' = inject_or_replace_volume_mount spec'' (record {
      name = fpvc.spec.pvc_volume_name;
      mount_path = fpvc.spec.pvc_volume_mount_path;
      other = "";
    }) in
    inject_envs spec''' fpvc.spec.common_envs

-- the binding has the name of its claim
abbrev pub binding_key : ObjectKey → PersistentVolumeClaim → ObjectKey
binding_key req pvc = record { namespace = req.namespace; name = pvc.meta.name }

abbrev pub with_meta : Job → Outcome ObjectMeta → Outcome Job
with_meta j (ok m) = ok (record j { meta = m })
with_meta j (err e) = err e
with_meta j panicked = panicked

-- `j` before the mutate function runs
abbrev pub new_job : FluentPvcBinding → Job
new_job b = record {
  meta = record (empty_meta) { name = b.meta.name; namespace = b.meta.namespace };
  spec = record { template = empty_pod_spec; other = "" };
  conditions = [];
}

module _ (l : Library) where
  -- the mutate function that `CreateOrUpdate` runs on the job
  unfoldable pub mutate_job :
      FluentPvcBinding → FluentPvc → PersistentVolumeClaim → Job → Outcome Job
  unfolding finalizer_pod_spec
  mutate_job b fpvc pvc j =
      let template = fpvc.spec.pvc_finalizer_job_spec_template in
      let spec : JobSpec = record template {
        template = finalizer_pod_spec fpvc pvc.meta.name template.template;
      } in
      with_meta (record j { spec = spec })
        (l.set_controller_reference "FluentPVCBinding" b.meta j.meta)

  unfoldable pub delete_claim : PersistentVolumeClaim → Program (Outcome Result)
  unfolding delete_options_background
  delete_claim pvc =
      call (delete_pvc pvc (delete_options_background pvc.meta.uid pvc.meta.resource_version))
        (λ r. ret (finish_delete l r))

  unfoldable pub on_update :
      Result → PersistentVolumeClaim → Reply PersistentVolumeClaim → Program (Outcome Result)
  unfolding delete_claim
  on_update on_conflict pvc (success stored) = delete_claim stored
  on_update on_conflict pvc (failure e) =
      if l.is_not_found e
      then delete_claim pvc
      else if l.is_conflict e
      then ret (ok on_conflict)
      else ret (err (wrap "Failed to remove finalizer from PVC='%s'.: %w" (api e)))

  -- The two places that let a claim go differ in the result at a conflict.
  unfoldable pub release : Result → PersistentVolumeClaim → Program (Outcome Result)
  unfolding on_update
  release on_conflict pvc =
      let pvc' = record pvc { meta = l.remove_finalizer pvc.meta pvc_finalizer_name } in
      call (update_pvc pvc') (on_update on_conflict pvc')

  unfoldable pub when_applied : PersistentVolumeClaim → FluentPvcBinding → Program (Outcome Result)
  unfolding release is_condition_finalizer_job_succeeded is_condition_finalizer_job_failed
  when_applied pvc b =
      if not (is_condition_finalizer_job_succeeded l b)
        && not (is_condition_finalizer_job_failed l b)
      then ret (ok later)
      else if is_condition_finalizer_job_failed l b
      then ret (ok later)
      else release later pvc

  unfoldable pub on_applied :
      PersistentVolumeClaim → FluentPvcBinding → Outcome (Unit {0}) → Program (Outcome Result)
  unfolding when_applied
  on_applied pvc b (ok _) = when_applied pvc b
  on_applied pvc b (err e) = ret (err (wrap unexpected e))
  on_applied pvc b panicked = ret panicked

  unfoldable pub on_fluent_pvc :
      PersistentVolumeClaim → FluentPvcBinding → Reply FluentPvc → Program (Outcome Result)
  unfolding on_applied mutate_job
  on_fluent_pvc pvc b (failure e) = ret (err (wrap unexpected (api e)))
  on_fluent_pvc pvc b (success fpvc) =
      call (create_or_update_job (new_job b) (mutate_job b fpvc pvc)) (on_applied pvc b)

  -- `metav1.GetControllerOf(b).Name`
  unfoldable pub apply_job :
      PersistentVolumeClaim → FluentPvcBinding → Option OwnerReference → Program (Outcome Result)
  unfolding on_fluent_pvc
  apply_job pvc b none = ret panicked
  apply_job pvc b (some owner) = call (get_fluent_pvc owner.name) (on_fluent_pvc pvc b)

  unfoldable pub on_jobs :
      PersistentVolumeClaim → FluentPvcBinding → Reply (List Job) → Program (Outcome Result)
  unfolding apply_job
  on_jobs pvc b (success []) = apply_job pvc b (l.get_controller_of b.meta)
  on_jobs pvc b (success (j ∷ js)) = ret (ok later)
  on_jobs pvc b (failure e) =
      if l.is_not_found e
      then apply_job pvc b (l.get_controller_of b.meta)
      else ret (err (wrap unexpected (api e)))

  unfoldable pub when_out_of_use :
      PersistentVolumeClaim → FluentPvcBinding → Program (Outcome Result)
  unfolding on_jobs when_applied is_condition_finalizer_job_applied
  when_out_of_use pvc b =
      if not (is_condition_finalizer_job_applied l b)
      then call (list_jobs b.meta.name) (on_jobs pvc b)
      else when_applied pvc b

  unfoldable pub on_binding :
      PersistentVolumeClaim → Reply FluentPvcBinding → Program (Outcome Result)
  unfolding when_out_of_use release is_condition_pod_missing is_condition_unknown
      is_condition_out_of_use
  on_binding pvc (failure e) =
      ret (if l.is_not_found e then ok later else err (wrap unexpected (api e)))
  on_binding pvc (success b) =
      if not (pvc.meta.uid == b.spec.pvc.uid)
      then ret (ok no_requeue)
      else if is_condition_pod_missing l b
      then release no_requeue pvc
      else if is_condition_unknown l b
      then ret (ok no_requeue)
      else if not (is_condition_out_of_use l b)
      then ret (ok later)
      else when_out_of_use pvc b

  unfoldable pub on_pvc : ObjectKey → Reply PersistentVolumeClaim → Program (Outcome Result)
  unfolding on_binding
  on_pvc req (failure e) =
      ret (if l.is_not_found e then ok later else err (wrap unexpected (api e)))
  on_pvc req (success pvc) =
      call (get_binding (record { namespace = req.namespace; name = pvc.meta.name }))
        (on_binding pvc)

  unfoldable pub reconcile : ObjectKey → Program (Outcome Result)
  unfolding on_pvc
  reconcile req = call (get_pvc req) (on_pvc req)
