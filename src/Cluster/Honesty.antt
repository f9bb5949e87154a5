-- ===== src/Cluster/Honesty.antt =====
-- Every handler rests the success that it stores on what it has read.
use fluent_pvc_operator.Cluster.Admissions.{mutate-Keeps, IsAdmission, handle-IsQuiet}
use fluent_pvc_operator.Cluster.Care.{silent-Keeps}
use fluent_pvc_operator.Cluster.Evidence.{
  Insight, IsHonest, Justified, evidence, StoresNone, StoresNone-IsHonest, Saves-StoresNone,
}
use fluent_pvc_operator.Cluster.Evidence.Claims.{reconcile-StoresNone}
use fluent_pvc_operator.Cluster.Evidence.Runs.{reconcile-IsHonest}
use fluent_pvc_operator.Cluster.Others.{
  reconcile_pod-IsQuiet, reconcile_fluent_pvc-IsQuiet, start-IsQuiet, IsQuiet,
}
use fluent_pvc_operator.Cluster.Processes.{
  Handler, silent, program, reconcile_binding, reconcile_pvc, reconcile_pod, reconcile_fluent_pvc,
  mutate_pod, validate_pod, validate_fluent_pvc, watch,
}
use fluent_pvc_operator.Lifecycle.Flags.{flags, holds}
use fluent_pvc_operator.Webhooks.Admission.{Codec, Request}
use fluent_pvc_operator.Api.{set_phase_pending}
use fluent_pvc_operator.Effect.{
  Call, Program, ret, get_fluent_pvc, random_count, create_pvc, create_binding,
}
use mathlib.Core.List.{Memᴰ}
use fluent_pvc_operator.Prelude.{[], inl, refl}
use fluent_pvc_operator.Kube.{Library, LibraryLaws}
use fluent_pvc_operator.Controllers.Claims
use fluent_pvc_operator.Controllers.Pods
use fluent_pvc_operator.Controllers.FluentPvcs
use fluent_pvc_operator.Controllers.Bindings
use fluent_pvc_operator.Webhooks.PodMutator
use fluent_pvc_operator.Webhooks.PodValidator
use fluent_pvc_operator.Webhooks.FluentPvcValidator

abbrev pub no_insight : Insight
no_insight = record { bindings = []; names = [] }

module _ (l : Library) where
  silent-IsHonest :
      {A : Type 0} (m : Program A) → IsHonest l no_insight m → IsHonest l no_insight (silent m)
  silent-IsHonest m h = silent-Keeps (evidence l) no_insight m h

  storing_none-IsHonest :
      {A : Type 0} (m : Program A) → StoresNone m → IsHonest l no_insight (silent m)
  storing_none-IsHonest m h = silent-IsHonest m (StoresNone-IsHonest l no_insight m h)

  quiet-IsHonest : {A : Type 0} (m : Program A) → IsQuiet l m → IsHonest l no_insight (silent m)
  quiet-IsHonest m h = storing_none-IsHonest m (Saves-StoresNone l m h)

  IsAdmission-Justified : (k : Insight) (c : Call) → IsAdmission c → Justified l k c
  IsAdmission-Justified k (get_fluent_pvc n) h = tt
  IsAdmission-Justified k random_count h = tt
  IsAdmission-Justified k (create_pvc p) h = tt
  IsAdmission-Justified k (create_binding b) h = tt
  IsAdmission-Justified k _ h = absurd h

  mutate-IsHonest :
      (codec : Codec) (req : Request) → IsHonest l no_insight (PodMutator.handle codec l req)
  unfolding set_phase_pending flags holds
  mutate-IsHonest codec req =
      mutate-Keeps codec l (evidence l) IsAdmission-Justified
        (λ k d b e. (b, Memᴰ.head refl, refl, inl e)) no_insight req

pub Handler-IsHonest :
    (codec : Codec) (l : Library)
    → LibraryLaws l
    → (h : Handler) → IsHonest l no_insight (program codec l h)
Handler-IsHonest codec l laws (reconcile_binding req) =
    silent-IsHonest l (Bindings.reconcile l req) (reconcile-IsHonest l laws no_insight req)
Handler-IsHonest codec l laws (reconcile_pvc req) =
    storing_none-IsHonest l (Claims.reconcile l req) (reconcile-StoresNone l req)
Handler-IsHonest codec l laws (reconcile_pod req) =
    quiet-IsHonest l (Pods.reconcile l req) (reconcile_pod-IsQuiet l req)
Handler-IsHonest codec l laws (reconcile_fluent_pvc req) =
    quiet-IsHonest l (FluentPvcs.reconcile l req) (reconcile_fluent_pvc-IsQuiet l req)
Handler-IsHonest codec l laws (mutate_pod req) =
    silent-IsHonest l (PodMutator.handle codec l req) (mutate-IsHonest l codec req)
Handler-IsHonest codec l laws (validate_pod req) =
    quiet-IsHonest l (ret (PodValidator.handle codec req)) tt
Handler-IsHonest codec l laws (validate_fluent_pvc req) =
    quiet-IsHonest l (FluentPvcValidator.handle codec req) (handle-IsQuiet codec l req)
Handler-IsHonest codec l laws (watch fuel signals) =
    quiet-IsHonest l (Bindings.start fuel signals) (start-IsQuiet l fuel signals)
