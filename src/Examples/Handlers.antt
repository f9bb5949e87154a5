-- ===== src/Examples/Handlers.antt =====
-- The theorems on the webhooks, the injection, the hash and the watcher at concrete inputs.
use fluent_pvc_operator.Webhooks.PodMutator.Served.{Serves, handle-serves}
use fluent_pvc_operator.Webhooks.PodMutator.Patched.{patch_spec_lem}
use fluent_pvc_operator.Controllers.Claims.Finalizing.{claim_volume, claim_mount}
use fluent_pvc_operator.Webhooks.PodMutator.{new_binding, patch_spec}
use fluent_pvc_operator.Webhooks.PodMutator
use fluent_pvc_operator.Watching.{events, last, start-sends_rounds}
use fluent_pvc_operator.Injection.{insert_loop}
use fluent_pvc_operator.Injection.Variables.{find_last, find_last-insert_loop}
use fluent_pvc_operator.Injection.Lookup.{has_name}
use fluent_pvc_operator.Webhooks.PodMutator.Creations.{
  LeavesClaim, fresh_claim, ReadsForPod, fresh_name, claim_left_behind,
}
use fluent_pvc_operator.Webhooks.FluentPvcValidator.Verdict.{
  all_read_write_once, is_allowed, handle-allowed, handle-crashed,
}
use fluent_pvc_operator.Webhooks.Admission.{Request, crashed}
use fluent_pvc_operator.Injection.Specs.{HasVolume, env_name, IsMounted, names_of}
use fluent_pvc_operator.Api.{FluentPvcBinding}
use fluent_pvc_operator.Controllers.Bindings.{start, tick, done}
use fluent_pvc_operator.Controllers.Pods.{label}
use fluent_pvc_operator.Effect.{calls, result, BindingPage, get_fluent_pvc, Environment}
use fluent_pvc_operator.Prelude.{◌≡◌, refl, true, String, ◌∷◌, [], some, false}
use fluent_pvc_operator.Webhooks.FluentPvcValidator
use fluent_pvc_operator.Kube.{PersistentVolumeClaim, ObjectMeta, lookup_key, EnvVar, success, ok}
use fluent_pvc_operator.Examples.Libraries.{library, library_laws}
use fluent_pvc_operator.Examples.Data.{
  fpvc, answers, out_of_use, codec, owner, pod, refuses_binding, app_spec, fpvc_without_class,
  exists_already, request,
}

abbrev bare_request : Request
bare_request = record { namespace = "ns"; raw = "bare" }

handle-allowed_example :
    is_allowed (result (answers out_of_use fpvc) 0 (FluentPvcValidator.handle codec request)) ≡ true
unfolding all_read_write_once
handle-allowed_example = handle-allowed codec (answers out_of_use fpvc) request fpvc refl

handle-crashed_example :
    result (answers out_of_use fpvc) 0 (FluentPvcValidator.handle codec bare_request) ≡ crashed
handle-crashed_example =
    handle-crashed codec (answers out_of_use fpvc) bare_request fpvc_without_class refl
      (unfold all_read_write_once in refl) refl

reads_for_pod :
    (env : Environment)
    → env 0 (get_fluent_pvc "fluent") ≡ success fpvc
    → ReadsForPod codec library env request pod "fluent" fpvc
unfolding label lookup_key
reads_for_pod env h = record {
  decoded = refl;
  has_containers = λ e. cc e;
  labelled = refl;
  fluent_pvc_read = h;
}

abbrev created_claim : PersistentVolumeClaim
created_claim = fresh_claim codec library (answers out_of_use fpvc) request pod "fluent" fpvc

abbrev created_name : String
created_name = fresh_name codec library (answers out_of_use fpvc) request pod "fluent" fpvc

abbrev created_binding : FluentPvcBinding
created_binding = new_binding codec library request fpvc pod created_claim created_name

abbrev owned_meta : ObjectMeta
owned_meta = record (created_binding.meta) {
  owner_references = owner ∷ created_binding.meta.owner_references;
}

handle-serves_example : Serves codec library (answers out_of_use fpvc) request
unfolding PodMutator.handle library lookup_key
handle-serves_example =
    handle-serves codec library (answers out_of_use fpvc) request library_laws refl

claim_left_behind_example :
    LeavesClaim codec library refuses_binding request pod "fluent" fpvc created_claim owned_meta
      exists_already
unfolding library
claim_left_behind_example =
    claim_left_behind codec library refuses_binding request pod "fluent" fpvc library_laws
      (reads_for_pod refuses_binding refl) created_claim owned_meta exists_already refl refl refl

patch_spec_example :
    HasVolume (claim_volume fpvc "fluent-1") (patch_spec fpvc "fluent-1" app_spec)
    × IsMounted (claim_mount fpvc) (patch_spec fpvc "fluent-1" app_spec)
    × (names_of (patch_spec fpvc "fluent-1" app_spec) ≡ "app" ∷ "sidecar" ∷ [])
unfolding has_name
patch_spec_example = patch_spec_lem fpvc "fluent-1" app_spec

abbrev env_var : String → EnvVar
env_var value = record { name = "DIR"; value = value; other = "" }

find_last-insert_loop_example :
    find_last env_name "DIR" (insert_loop env_name (env_var "new") false (env_var "old" ∷ []))
    ≡ some (env_var "old")
unfolding find_last
find_last-insert_loop_example =
    find_last-insert_loop env_name (env_var "new") "DIR" (env_var "old" ∷ [])

abbrev one_page : String → BindingPage
one_page token = record { items = out_of_use ∷ []; continue = "" }

start-sends_rounds_example :
    (events (calls (answers out_of_use fpvc) 0 (start 3 (tick ∷ tick ∷ done ∷ [])))
      ≡ out_of_use ∷ out_of_use ∷ [])
    × (result (answers out_of_use fpvc) 0 (start 3 (tick ∷ tick ∷ done ∷ [])) ≡ some (ok tt))
start-sends_rounds_example =
    start-sends_rounds one_page (answers out_of_use fpvc) (λ n t. refl) 3 2 [] (out_of_use ∷ [])
      (last refl refl)
