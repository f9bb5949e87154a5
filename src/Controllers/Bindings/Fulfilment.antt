-- ===== src/Controllers/Bindings/Fulfilment.antt =====
-- Finding the pod and the claim of a binding: `none` is what the source calls not found.
use fluent_pvc_operator.Prelude.{
  String, Bool, false, not, ◌||◌, Option, none, some, List, [], ◌∷◌, ◌==◌, if◌then◌else◌,
}
use fluent_pvc_operator.Kube.{
  Library, Pod, Volume, PersistentVolumeClaim, Reply, success, failure, api, wrap, new, Outcome, ok,
  err,
}
use fluent_pvc_operator.Api.{
  FluentPvcBinding, pod_label_fluent_pvc_name, set_pod, is_binding_pod, is_binding_pvc,
}
use fluent_pvc_operator.Effect.{Program, ret, call, list_pods, get_pod, get_pvc, update_binding}
use fluent_pvc_operator.Controllers.Utils.{unexpected}
use fluent_pvc_operator.Controllers.Pods.{label}

-- the loop over the pod's volumes
unfoldable pub pod_has_pvc : String → List Volume → Bool
pod_has_pvc claim_name [] = false
pod_has_pvc claim_name (v ∷ vs) =
    claims claim_name v.persistent_volume_claim || pod_has_pvc claim_name vs
  where
    claims : String → Option String → Bool
    claims n none = false
    claims n (some m) = m == n

abbrev pub is_label : Option String → String → Bool
is_label none name = false
is_label (some v) name = v == name

unfoldable pub pod_has_fluent_pvc_label : FluentPvcBinding → Pod → Bool
unfolding label
pod_has_fluent_pvc_label b pod =
    is_label (label pod.meta.labels pod_label_fluent_pvc_name) b.spec.fluent_pvc.name

abbrev pub filled : Pod → Reply FluentPvcBinding → Outcome (FluentPvcBinding × Option Pod)
filled pod (success stored) = ok (stored, some pod)
filled pod (failure e) = err (wrap unexpected (wrap unexpected (api e)))

unfoldable pub fill_pod_uid :
    FluentPvcBinding → Pod → Program (Outcome (FluentPvcBinding × Option Pod))
unfolding pod_has_pvc pod_has_fluent_pvc_label set_pod
fill_pod_uid b pod =
    if not (pod_has_pvc b.spec.pvc.name pod.spec.volumes)
    then ret (
        err (
          wrap unexpected (
            new
              "There is an inconsistency in the definition of fluentpvcbinding='%s' because pod='%s' does not have pvc='%s'.")))
    else if not (pod_has_fluent_pvc_label b pod)
    then ret (
        err (
          wrap unexpected (
            new
              "There is an inconsistency in the definition of fluentpvcbinding='%s' because pod='%s' does not have fluentpvc='%s'")))
    else call (update_binding (set_pod b pod)) (λ r. ret (filled pod r))

-- what is done with the pod that was found, or with none
unfoldable pub check_pod :
    FluentPvcBinding → Option Pod → Program (Outcome (FluentPvcBinding × Option Pod))
unfolding fill_pod_uid is_binding_pod
check_pod b none = ret (ok (b, none))
check_pod b (some pod) =
    if b.spec.pod.uid == "" || b.spec.pod.name == ""
    then fill_pod_uid b pod
    else ret (ok (b, if is_binding_pod b pod then some pod else none))

unfoldable pub on_pods :
    FluentPvcBinding → Reply (List Pod) → Program (Outcome (FluentPvcBinding × Option Pod))
unfolding check_pod
on_pods b (failure e) = ret (err (wrap unexpected (api e)))
on_pods b (success []) = check_pod b none
on_pods b (success (pod ∷ [])) = check_pod b (some pod)
on_pods b (success (pod ∷ pod' ∷ pods)) = ret (err (new "Illegal number of pods(n=%d) is found."))

module _ (l : Library) where
  unfoldable pub on_named_pod :
      FluentPvcBinding → Reply Pod → Program (Outcome (FluentPvcBinding × Option Pod))
  unfolding check_pod
  on_named_pod b (success pod) = check_pod b (some pod)
  on_named_pod b (failure e) =
      if l.is_not_found e then check_pod b none else ret (err (wrap unexpected (api e)))

  unfoldable pub fulfill_fluent_pvc_binding_pod :
      FluentPvcBinding → Program (Outcome (FluentPvcBinding × Option Pod))
  unfolding on_pods on_named_pod
  fulfill_fluent_pvc_binding_pod b =
      if b.spec.pod.name == ""
      then call (list_pods b.meta.namespace b.meta.name) (on_pods b)
      else call (get_pod (record { namespace = b.meta.namespace; name = b.spec.pod.name }))
          (on_named_pod b)

  unfoldable pub on_claim :
      FluentPvcBinding → Reply PersistentVolumeClaim → Outcome (Option PersistentVolumeClaim)
  unfolding is_binding_pvc
  on_claim b (success pvc) = ok (if is_binding_pvc b pvc then some pvc else none)
  on_claim b (failure e) = if l.is_not_found e then ok none else err (wrap unexpected (api e))

  unfoldable pub fulfill_fluent_pvc_binding_pvc :
      FluentPvcBinding → Program (Outcome (Option PersistentVolumeClaim))
  unfolding on_claim
  fulfill_fluent_pvc_binding_pvc b =
      call (get_pvc (record { namespace = b.meta.namespace; name = b.spec.pvc.name }))
        (λ r. ret (on_claim b r))
