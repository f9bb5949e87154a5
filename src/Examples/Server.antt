-- ===== src/Examples/Server.antt =====
-- A server that stores up to four versions of one binding, runs one job, and answers all else from
-- the data.
use fluent_pvc_operator.Examples.Data.{out_of_use, pod, claim, succeeded_job}
use fluent_pvc_operator.Examples.Data.{answers, fpvc}
use fluent_pvc_operator.Effect.{
  update_binding_status, create_binding, Call, Answer, get_binding, get_pod, list_bindings,
  list_binding_page, update_binding, time_now, create_pvc, get_pvc, update_pvc, list_jobs,
  create_or_update_job,
}
use fluent_pvc_operator.Cluster.Server.{Server}
use fluent_pvc_operator.Cluster.Custody.{ClaimStore}
use fluent_pvc_operator.Cluster.Jobs.{JobRecord}
use fluent_pvc_operator.Prelude.{
  String, ◌≡◌, List, [], ◌∷◌, if◌then◌else◌, Bool, true, false, ◌==◌, ◌&&◌, ◌^◌,
}
use fluent_pvc_operator.Kube.{
  success, failure, ApiError, Reply, Pod, PersistentVolumeClaim, Job, ok,
}
use fluent_pvc_operator.Api.{FluentPvcBinding}

pub data Stored : Type 0 where
  nothing : Stored
  one : FluentPvcBinding → Stored
  two : FluentPvcBinding → FluentPvcBinding → Stored
  three : FluentPvcBinding → FluentPvcBinding → FluentPvcBinding → Stored
  -- three versions and a finalizer job, which has succeeded
  applied : FluentPvcBinding → FluentPvcBinding → FluentPvcBinding → Stored
  four : FluentPvcBinding → FluentPvcBinding → FluentPvcBinding → FluentPvcBinding → Stored

-- The name of the one binding.
abbrev pub binding_name : String
binding_name = "fluent-x-x"

abbrev pub stamped : String → FluentPvcBinding → FluentPvcBinding
stamped version b = record b {
  meta = record (b.meta) { name = binding_name; uid = "u4"; resource_version = version };
}

abbrev pub stored_versions : Stored → List FluentPvcBinding
stored_versions nothing = []
stored_versions (one b) = stamped "1" b ∷ []
stored_versions (two c b) = stamped "2" c ∷ stamped "1" b ∷ []
stored_versions (three d c b) = stamped "3" d ∷ stamped "2" c ∷ stamped "1" b ∷ []
stored_versions (applied d c b) = stamped "3" d ∷ stamped "2" c ∷ stamped "1" b ∷ []
stored_versions (four e d c b) = stamped "4" e ∷ stamped "3" d ∷ stamped "2" c ∷ stamped "1" b ∷ []

abbrev pub versions_of : Stored → String → List FluentPvcBinding
versions_of s u = if u == "u4" then stored_versions s else []

abbrev pub not_found : ApiError
not_found = record { reason = "NotFound"; message = "" }

abbrev pub refused : ApiError
refused = record { reason = "Conflict"; message = "" }

abbrev pub is_current : String → FluentPvcBinding → Bool
is_current version d = d.meta.uid == "u4" && d.meta.resource_version == version

-- A status onto the newest version.
abbrev pub put_status : Stored → FluentPvcBinding → Reply FluentPvcBinding × Stored
put_status (one b) d =
    if is_current "1" d then (success (stamped "2" d), two d b) else (failure refused, one b)
put_status (two c b) d =
    if is_current "2" d then (success (stamped "3" d), three d c b) else (failure refused, two c b)
put_status (applied d c b) e =
    if is_current "3" e
    then (success (stamped "4" e), four e d c b)
    else (failure refused, applied d c b)
put_status s d = (failure refused, s)

abbrev pub created_from : FluentPvcBinding → FluentPvcBinding
created_from d = record d { status = record { conditions = []; phase = "" } }

abbrev pub put_new : Stored → FluentPvcBinding → Reply FluentPvcBinding × Stored
put_new nothing d = (success (stamped "1" (created_from d)), one (created_from d))
put_new s d = (failure refused, s)

abbrev pub read_newest : Stored → Reply FluentPvcBinding
read_newest nothing = failure not_found
read_newest (one b) = success (stamped "1" b)
read_newest (two c b) = success (stamped "2" c)
read_newest (three d c b) = success (stamped "3" d)
read_newest (applied d c b) = success (stamped "3" d)
read_newest (four e d c b) = success (stamped "4" e)

-- The pod is there while the binding has one version.
abbrev pub read_pod : Stored → Reply Pod
read_pod (one b) = success pod
read_pod s = failure not_found

-- The claim of the admitted pod is gone once the binding has three versions.
abbrev pub read_claim : Stored → String → Reply PersistentVolumeClaim
read_claim (three d c b) name = if name == binding_name then failure not_found else success claim
read_claim s name = success claim

-- The job runs once the binding has three versions.
abbrev pub run_job : Stored → Stored
run_job (three d c b) = applied d c b
run_job s = s

abbrev pub has_job : Stored → Bool
has_job (applied d c b) = true
has_job (four e d c b) = true
has_job s = false

abbrev pub jobs_of : Stored → String → List Job
jobs_of s name = if has_job s && name == binding_name then succeeded_job ∷ [] else []

-- The clock is far from the creation of the binding.
abbrev pub respond : Stored → (c : Call) → Answer c × Stored
respond s (get_binding k) = (read_newest s, s)
respond s (get_pod k) = (read_pod s, s)
respond s (get_pvc k) = (read_claim s k.name, s)
respond s (list_bindings o) = (success [], s)
respond s (list_binding_page n t) = (success (record { items = []; continue = "" }), s)
respond s (create_binding d) = put_new s d
respond s (update_binding d) = (failure not_found, s)
respond s (create_pvc p) = (success (record p { meta = record (p.meta) { uid = "u3" } }), s)
respond s (update_binding_status d) = put_status s d
respond s (list_jobs name) = (success (jobs_of s name), s)
respond s (create_or_update_job j f) = (ok tt, run_job s)
respond s time_now = (10 ^ 13, s)
respond s c = (answers out_of_use fpvc 0 c, s)

-- The versions of the claim: its creation, and what the operator stores.
abbrev pub keep : List PersistentVolumeClaim → Call → List PersistentVolumeClaim
keep [] (create_pvc p) = record p { meta = record (p.meta) { uid = "u3" } } ∷ []
keep ps (update_pvc p) = if p.meta.uid == "u3" then p ∷ ps else ps
keep ps _ = ps

abbrev pub Cell : Type 0
Cell = Stored × List PersistentVolumeClaim

abbrev pub handle : Cell → (c : Call) → Answer c × Cell
handle s c = ((respond s.0 c).0, ((respond s.0 c).1, keep s.1 c))

abbrev pub server : Server
server = record {
  State = Cell;
  initial = λ s. s ≡ (nothing, []);
  serves = λ s c r s'. (respond s.0 c ≡ (r, s'.0)) × (keep s.1 c ≡ s'.1);
  others = λ s s'. s ≡ s';
  versions = λ s u. versions_of s.0 u;
}

abbrev pub claim_store : ClaimStore server
claim_store = record { claims = λ s u. if u == "u3" then s.1 else [] }

abbrev pub job_record : JobRecord server
job_record = record { succeeded_names = λ s name. (has_job s.0 ≡ true) × (name ≡ binding_name) }
