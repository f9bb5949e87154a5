-- ===== src/Effect/Calls.antt =====
-- The calls that the controllers and the webhooks make, with the type of each answer.
use fluent_pvc_operator.Prelude.{ℕ, String, List}
use fluent_pvc_operator.Kube.{
  ObjectKey, DeleteOptions, Pod, PersistentVolumeClaim, Job, Reply, Outcome,
}
use fluent_pvc_operator.Api.{FluentPvc, FluentPvcBinding}

-- A page of `List` with a limit: the items and the continue token.
pub record BindingPage : Type 0 where
  pub items : List FluentPvcBinding
  pub continue : String

pub data Call : Type 0 where
  get_binding get_pod get_pvc : ObjectKey → Call
  get_fluent_pvc get_storage_class : String → Call
  -- the namespace and the value of the label of the binding's name
  list_pods : String → String → Call
  -- the name of the controlling owner
  list_jobs list_bindings : String → Call
  -- the limit and the continue token
  list_binding_page : ℕ → String → Call
  create_binding update_binding update_binding_status : FluentPvcBinding → Call
  update_fluent_pvc : FluentPvc → Call
  create_pvc update_pvc : PersistentVolumeClaim → Call
  delete_binding : FluentPvcBinding → DeleteOptions → Call
  delete_pod : Pod → DeleteOptions → Call
  delete_pvc : PersistentVolumeClaim → DeleteOptions → Call
  dry_run_create_job : Job → Call
  dry_run_create_pvc : PersistentVolumeClaim → Call
  dry_run_create_pod : Pod → Call
  -- `ctrl.CreateOrUpdate` with the object and its mutate function
  create_or_update_job : Job → (Job → Outcome Job) → Call
  -- a send on the channel of the watcher
  send_event : FluentPvcBinding → Call
  time_now random_count : Call

-- An update returns the object as the server stored it.
abbrev pub Answer : Call → Type 0
Answer (get_binding k) = Reply FluentPvcBinding
Answer (get_pod k) = Reply Pod
Answer (get_pvc k) = Reply PersistentVolumeClaim
Answer (get_fluent_pvc n) = Reply FluentPvc
Answer (get_storage_class n) = Reply Unit
Answer (list_pods n l) = Reply (List Pod)
Answer (list_jobs o) = Reply (List Job)
Answer (list_bindings o) = Reply (List FluentPvcBinding)
Answer (list_binding_page l t) = Reply BindingPage
Answer (create_binding b) = Reply FluentPvcBinding
Answer (update_binding b) = Reply FluentPvcBinding
Answer (update_binding_status b) = Reply FluentPvcBinding
Answer (update_fluent_pvc f) = Reply FluentPvc
Answer (create_pvc p) = Reply PersistentVolumeClaim
Answer (update_pvc p) = Reply PersistentVolumeClaim
Answer (delete_binding b o) = Reply Unit
Answer (delete_pod p o) = Reply Unit
Answer (delete_pvc p o) = Reply Unit
Answer (dry_run_create_job j) = Reply Unit
Answer (dry_run_create_pvc p) = Reply Unit
Answer (dry_run_create_pod p) = Reply Unit
Answer (create_or_update_job j f) = Outcome Unit
Answer (send_event b) = Unit
Answer time_now = ℕ
Answer random_count = ℕ
