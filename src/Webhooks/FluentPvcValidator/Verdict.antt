-- ===== src/Webhooks/FluentPvcValidator/Verdict.antt =====
-- The response of the validator of webhooks/fluentpvc_webhook.go.
use fluent_pvc_operator.Prelude.{
  String, Bool, true, false, ◌&&◌, ◌≡◌, refl, Option, none, some, List, [], ◌∷◌, ◌==◌, arith,
}
use fluent_pvc_operator.Kube.{Reply, success, failure}
use fluent_pvc_operator.Api.{FluentPvc}
use fluent_pvc_operator.Effect.{
  Environment, result, get_storage_class, dry_run_create_job, dry_run_create_pvc,
  dry_run_create_pod,
}
use fluent_pvc_operator.Webhooks.Admission.{Response, Request, allowed, crashed, Codec}
use fluent_pvc_operator.Webhooks.FluentPvcValidator.{
  handle, template_job, template_pvc, template_pod, check_access_modes, check_storage_class,
  dry_runs,
}

abbrev pub succeeds : Reply (Unit {0}) → Bool
succeeds (success _) = true
succeeds (failure e) = false

unfoldable pub all_read_write_once : List String → Bool
all_read_write_once [] = true
all_read_write_once (m ∷ ms) = m == "ReadWriteOnce" && all_read_write_once ms

-- The storage class exists and the server would create the job, the claim and the pod.
abbrev pub server_accepts : Environment → FluentPvc → Option String → Bool
server_accepts env fpvc none = false
server_accepts env fpvc (some name) =
    succeeds (env 0 (get_storage_class name))
    && succeeds (env 1 (dry_run_create_job (template_job fpvc)))
    && succeeds (env 2 (dry_run_create_pvc (template_pvc fpvc)))
    && succeeds (env 3 (dry_run_create_pod (template_pod fpvc)))

abbrev pub is_allowed : Response → Bool
is_allowed allowed = true
is_allowed _ = false

module _ (env : Environment) (fpvc : FluentPvc) where
  dry_runs-allowed : is_allowed (result env 1 (dry_runs fpvc)) ≡ (
      succeeds (env 1 (dry_run_create_job (template_job fpvc)))
      && succeeds (env 2 (dry_run_create_pvc (template_pvc fpvc)))
      && succeeds (env 3 (dry_run_create_pod (template_pod fpvc))))
  unfolding dry_runs
  dry_runs-allowed = ground arith

  check_storage_class-allowed :
      (o : Option String)
      → is_allowed (result env 0 (check_storage_class fpvc o)) ≡ server_accepts env fpvc o
  unfolding check_storage_class
  check_storage_class-allowed none = refl
  check_storage_class-allowed (some name) = ground (arith, dry_runs-allowed)

  check_access_modes-allowed :
      (ms : List String)
      → is_allowed (result env 0 (check_access_modes fpvc ms)) ≡ (
          all_read_write_once ms
          && server_accepts env fpvc fpvc.spec.pvc_spec_template.storage_class_name)
  unfolding check_access_modes all_read_write_once
  check_access_modes-allowed [] = check_storage_class-allowed _
  check_access_modes-allowed (m ∷ ms) = ground (arith, check_access_modes-allowed ms)

-- Of a request that decodes to a FluentPVC: it is allowed exactly if every access mode is
-- ReadWriteOnce, a storage class is named and found, and the server accepts the job, the claim and
-- the pod as dry runs.
pub handle-allowed :
    (codec : Codec) (env : Environment) (req : Request) (fpvc : FluentPvc)
    → codec.decode_fluent_pvc req.raw ≡ success fpvc
    → is_allowed (result env 0 (handle codec req)) ≡ (
        all_read_write_once fpvc.spec.pvc_spec_template.access_modes
        && server_accepts env fpvc fpvc.spec.pvc_spec_template.storage_class_name)
unfolding handle
handle-allowed codec env req fpvc h = rw h (check_access_modes-allowed env fpvc _)

check_access_modes-crashed :
    (env : Environment) (fpvc : FluentPvc) (ms : List String)
    → fpvc.spec.pvc_spec_template.storage_class_name ≡ none
    → all_read_write_once ms ≡ true
    → result env 0 (check_access_modes fpvc ms) ≡ crashed
unfolding check_access_modes all_read_write_once
check_access_modes-crashed env fpvc [] h a = rw h
check_access_modes-crashed env fpvc (m ∷ ms) h a =
    ground (arith, check_access_modes-crashed env fpvc ms h)

-- Of a request that decodes to a FluentPVC: with every access mode in order, a template that names
-- no storage class makes the handler dereference nil.
pub handle-crashed :
    (codec : Codec) (env : Environment) (req : Request) (fpvc : FluentPvc)
    → codec.decode_fluent_pvc req.raw ≡ success fpvc
    → all_read_write_once fpvc.spec.pvc_spec_template.access_modes ≡ true
    → fpvc.spec.pvc_spec_template.storage_class_name ≡ none
    → result env 0 (handle codec req) ≡ crashed
unfolding handle
handle-crashed codec env req fpvc h a n = rw h (check_access_modes-crashed env fpvc _ n a)
