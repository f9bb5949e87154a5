-- ===== src/Controllers/Pods/Deletion.antt =====
-- The deletion of a pod by the pod reconciler, controllers/pod_controller.go.
use fluent_pvc_operator.Prelude.{
  ◌<◌, String, ◌≡◌, ◌⊎◌, inl, refl, Bool, List, true, false, some, arith, any, is_some, ◌∷◌, [],
}
use fluent_pvc_operator.Kube.{
  Library, ObjectKey, Pod, pod_running, ContainerStatus, Reply, success, failure, Outcome, err, ok,
  background, DeleteOptions,
}
use fluent_pvc_operator.Api.{FluentPvc, pod_label_fluent_pvc_name}
use fluent_pvc_operator.Effect.{
  Call, get_pod, get_fluent_pvc, delete_pod, Environment, calls, result,
}
use fluent_pvc_operator.Injection.Lookup.{find}
use fluent_pvc_operator.Controllers.Utils.{
  Result, finish_delete, no_requeue, find_container_status_by_name,
}
use fluent_pvc_operator.Controllers.Pods.{label, reconcile}

abbrev pub is_pod_deletion : Call → Bool
is_pod_deletion (delete_pod p o) = true
is_pod_deletion _ = false

find_container_status_by_name-find :
    (cs : List ContainerStatus) (name : String)
    → find_container_status_by_name cs name ≡ find (λ s. s.name) name cs
unfolding find_container_status_by_name find
find_container_status_by_name-find [] name = refl
find_container_status_by_name-find (c ∷ cs) name =
    ground (arith, find_container_status_by_name-find cs name)

-- The sidecar of a running target pod has ended at least once.
pub record SidecarEnded (pod : Pod) (fpvc : FluentPvc) (status : ContainerStatus) : Type 0 where
  pub running : pod.phase ≡ pod_running
  pub enabled : fpvc.spec.delete_pod_if_sidecar_container_termination_detected ≡ true
  pub found :
      find (λ s. s.name) fpvc.spec.sidecar_container_template.name pod.container_statuses
      ≡ some status
  pub ended : (0 < status.restart_count) ⊎ (is_some status.terminated ≡ true)

abbrev pub deletion_options : Pod → DeleteOptions
deletion_options pod = record {
  uid = some pod.meta.uid;
  resource_version = some pod.meta.resource_version;
  propagation_policy = some background;
}

-- The reads that a run of the reconciler rests a deletion on.
abbrev pub ReadsEnded :
    Environment → ObjectKey → Pod → String → FluentPvc → ContainerStatus → Type 0
ReadsEnded env req pod name fpvc status =
    (env 0 (get_pod req) ≡ success pod)
    × (label pod.meta.labels pod_label_fluent_pvc_name ≡ some name)
    × (env 1 (get_fluent_pvc name) ≡ success fpvc)
    × SidecarEnded pod fpvc status

abbrev pub JustifiedDeletion : Environment → ObjectKey → Type 0
JustifiedDeletion env req =
    (pod : Pod) × (name : String) × (fpvc : FluentPvc) × (status : ContainerStatus) × ReadsEnded env
      req pod name fpvc status

-- The reply of a deletion says that the pod is gone.
abbrev pub is_gone : Library → Reply (Unit {0}) → Bool
is_gone l (success u) = true
is_gone l (failure e) = l.is_not_found e

abbrev pub is_error : Outcome Result → Bool
is_error (err e) = true
is_error _ = false

-- A run that ends at a deletion: without an error and for good, or with an error.
abbrev pub EndsAt : Library → Reply (Unit {0}) → Outcome Result → Type 0
EndsAt l r o =
    ((is_gone l r ≡ true) × (o ≡ ok no_requeue)) ⊎ ((is_gone l r ≡ false) × (is_error o ≡ true))

finish_delete-EndsAt : (l : Library) (r : Reply (Unit {0})) → EndsAt l r (finish_delete l r)
finish_delete-EndsAt l (success u) = inl (refl, refl)
finish_delete-EndsAt l (failure e) = ground arith

module _ (l : Library) (env : Environment) (req : ObjectKey) where
  -- Whatever the server answers, a run deletes a pod only if it read a running pod with the label
  -- of a FluentPVC, read that FluentPVC with the deletion enabled, and the status of the sidecar
  -- shows a restart or a termination.
  pub deletion_only_if_ended :
      any is_pod_deletion (calls env 0 (reconcile l req)) ≡ true → JustifiedDeletion env req
  unfolding reconcile
  deletion_only_if_ended h = grind (arith, find_container_status_by_name-find)

  deletion_result :
      (pod : Pod) (name : String) (fpvc : FluentPvc) (status : ContainerStatus)
      → ReadsEnded env req pod name fpvc status
      → result env 0 (reconcile l req)
        ≡ finish_delete l (env 2 (delete_pod pod (deletion_options pod)))
  unfolding reconcile
  deletion_result pod name fpvc status reads = ground (
    arith,
    find_container_status_by_name-find pod.container_statuses
        fpvc.spec.sidecar_container_template.name,
  )

  -- With such reads the run deletes exactly that pod, in the background, on the condition that its
  -- UID and its version are still those that were read, whatever the exit code was; it ends without
  -- an error and for good if the reply says that the pod is deleted or not found, and with an error
  -- if the deletion failed otherwise.
  pub deletion_if_ended :
      (pod : Pod) (name : String) (fpvc : FluentPvc) (status : ContainerStatus)
      → ReadsEnded env req pod name fpvc status
      → (calls env 0 (reconcile l req)
          ≡ get_pod req ∷ get_fluent_pvc name ∷ delete_pod pod (deletion_options pod) ∷ [])
        × EndsAt l (env 2 (delete_pod pod (deletion_options pod))) (result env 0 (reconcile l req))
  unfolding reconcile
  deletion_if_ended pod name fpvc status reads = (
    ground (
      arith,
      find_container_status_by_name-find pod.container_statuses
          fpvc.spec.sidecar_container_template.name,
    ),
    rw (deletion_result pod name fpvc status reads)
        (finish_delete-EndsAt l (env 2 (delete_pod pod (deletion_options pod)))),
  )
