-- ===== src/Setup/Steps.antt =====
-- The manager of controller-runtime: what is asked of it, and what it answers.
use fluent_pvc_operator.Effect.{Program}
use fluent_pvc_operator.Webhooks.Admission.{Request, Response}
use fluent_pvc_operator.Controllers.Utils.{Result}
use fluent_pvc_operator.Api.{FluentPvcBinding}
use fluent_pvc_operator.Kube.{ObjectKey, Job, Outcome, Error}
use fluent_pvc_operator.Prelude.{ℕ, suc, String, Bool, Option, List, [], ◌∷◌}

pub data Kind : Type 0 where
  pods claims jobs fluent_pvcs bindings : Kind

pub data Event : Type 0 where
  create_event delete_event update_event generic_event : Event

-- What a controller is built from: the kind of its objects, the kinds that they own, the event
-- filter, whether it watches the channel of the watcher, and its Reconcile.
pub record Controller : Type 0 where
  pub kind : Kind
  pub owned : List Kind
  pub event_filter : Event → Bool
  pub watches_channel : Bool
  pub reconciler : ObjectKey → Program (Outcome Result)

pub data Step : Type 0 where
  load_config : String → Step
  -- `ctrl.NewManager(ctrl.GetConfigOrDie(), …)`, which needs the configuration of the cluster
  new_manager : Step
  -- the name of the index and the keys of an object
  index_jobs : String → (Job → List String) → Step
  index_bindings : String → (FluentPvcBinding → List String) → Step
  -- the watcher with its limit and its tick in nanoseconds
  add_watcher : ℕ → ℕ → Step
  complete : Controller → Step
  register_webhook : String → (Request → Program Response) → Step
  add_healthz_check start_manager : Step
  -- the check, as a function of the error of its connection to the webhook server
  add_readyz_check : (Option Error → Option Error) → Step

-- The registration of a webhook returns nothing, all else an error or nil.
abbrev pub Report : Step → Type 0
Report (register_webhook path handler) = Unit
Report _ = Option Error

pub data Wiring (A : Type 0) : Type 0 where
  done : A → Wiring A
  step : (s : Step) → (Report s → Wiring A) → Wiring A

infixl 10 ◌>>=◌
abbrev pub ◌>>=◌ : {A B : Type 0} → Wiring A → (A → Wiring B) → Wiring B
done a >>= f = f a
step s k >>= f = step s (λ r. k r >>= f)

-- A manager answers the n-th step as it likes.
abbrev pub Manager : Type 0
Manager = ℕ → (s : Step) → Report s

abbrev pub steps : {A : Type 0} → Manager → ℕ → Wiring A → List Step
steps mgr n (done a) = []
steps mgr n (step s k) = s ∷ steps mgr (suc n) (k (mgr n s))

abbrev pub outcome : {A : Type 0} → Manager → ℕ → Wiring A → A
outcome mgr n (done a) = a
outcome mgr n (step s k) = outcome mgr (suc n) (k (mgr n s))
