-- ===== src/Cluster/Evidence.antt =====
-- What a stored condition of the job's success rests on: a binding that was read with it, or a list
-- of jobs with one job that has succeeded.
pub mod Decision
pub mod Runs
pub mod Claims
use fluent_pvc_operator.Cluster.Contracts.{Contract, Keeps, Ensures-Keeps}
use fluent_pvc_operator.Cluster.Duties.{reveals, Memᴰ-append, no_writes}
use fluent_pvc_operator.Controllers.Utils.{is_job_succeeded}
use fluent_pvc_operator.Lifecycle.Flags.{flags}
use fluent_pvc_operator.Lifecycle.Rules.{Rules, Obeys, Saves}
use fluent_pvc_operator.Effect.{
  Call, Answer, Program, Ensures, Ensures-map, list_jobs, update_binding_status,
}
use fluent_pvc_operator.Api.{FluentPvcBinding}
use fluent_pvc_operator.Kube.{Library, Job, Reply, success}
use mathlib.Core.List.{Memᴰ}
use fluent_pvc_operator.Prelude.{
  Bool, String, true, false, ◌≡◌, ◌⊎◌, inl, inr, List, [], ◌∷◌, ◌++◌, if◌then◌else◌, sym, ◌∙◌,
}

abbrev pub proven : String → Reply (List Job) → List String
proven name (success (j ∷ [])) = if is_job_succeeded j then name ∷ [] else []
proven name _ = []

-- The name by which an answer has shown one job, which has succeeded.
abbrev pub proves : (c : Call) → Answer c → List String
proves (list_jobs name) r = proven name r
proves _ r = []

-- The bindings that a process was shown, and the names whose job was shown to have succeeded.
pub record Insight : Type 0 where
  pub bindings : List FluentPvcBinding
  pub names : List String

-- A program that stores no status.
abbrev pub IsOtherCall : Call → Type 0
IsOtherCall (update_binding_status d) = ⊥
IsOtherCall _ = Unit

abbrev pub StoresNone : {A : Type 0} → Program A → Type 0
StoresNone m = Ensures IsOtherCall (λ _. Unit {0}) m

pub StoresNone-if :
    {A : Type 0} (t : Bool) (m n : Program A)
    → StoresNone m
    → StoresNone n
    → StoresNone (if t then m else n)
StoresNone-if true m n h j = h
StoresNone-if false m n h j = j

Obeys-IsOtherCall : (l : Library) (c : Call) → Obeys (no_writes l) c → IsOtherCall c
Obeys-IsOtherCall l (update_binding_status d) o = absurd o
Obeys-IsOtherCall l _ o = tt

-- as one that writes nothing of a binding does
pub Saves-StoresNone :
    {A : Type 0} (l : Library) (m : Program A) → Saves (no_writes l) m → StoresNone m
Saves-StoresNone l m =
    Ensures-map (Obeys (no_writes l)) IsOtherCall (λ _. Unit) m (Obeys-IsOtherCall l)

module _ (l : Library) where
  abbrev pub succeeded : FluentPvcBinding → Bool
  succeeded b = (flags l b).finalizer_job_succeeded

  -- The success that a status claims is that of a binding which was read, or of its job.
  abbrev pub Rests : Insight → FluentPvcBinding → Type 0
  Rests k d =
      (b : FluentPvcBinding) × Memᴰ b k.bindings
      × (d.meta.uid ≡ b.meta.uid)
      × (succeeded b ≡ true ⊎ Memᴰ b.meta.name k.names)

  abbrev pub Justified : Insight → Call → Type 0
  Justified k (update_binding_status d) = succeeded d ≡ true → Rests k d
  Justified k _ = Unit

  abbrev pub evidence : Contract
  evidence = record {
    Knowledge = Insight;
    learn = λ k c r. record { bindings = reveals c r ++ k.bindings; names = proves c r ++ k.names };
    owed = Justified;
    relied = λ c r. Unit;
  }

  abbrev pub Honest : {A : Type 0} → Insight → (Insight → A → Type 0) → Program A → Type 0
  Honest k Q m = Keeps evidence k Q m

  abbrev pub IsHonest : {A : Type 0} → Insight → Program A → Type 0
  IsHonest k m = Honest k (λ _ _. Unit) m

  IsOtherCall-Justified : (k : Insight) (c : Call) → IsOtherCall c → Justified k c
  IsOtherCall-Justified k (update_binding_status d) h = absurd h
  IsOtherCall-Justified k _ h = tt

  pub StoresNone-IsHonest : {A : Type 0} (k : Insight) (m : Program A) → StoresNone m → IsHonest k m
  StoresNone-IsHonest k m =
      Ensures-Keeps evidence IsOtherCall (λ _. Unit) m (λ now c i. IsOtherCall-Justified now c)
        (λ now c r i. tt) k tt

  -- Statuses of one binding that claim no more success than it does.
  abbrev pub keeps_success : FluentPvcBinding → Rules
  keeps_success b = record {
    status = λ d. (d.meta.uid ≡ b.meta.uid) × (succeeded d ≡ succeeded b);
    object = λ _. Unit;
    deletion = Unit;
  }

  -- Statuses of one binding.
  abbrev pub same_object : FluentPvcBinding → Rules
  same_object b = record {
    status = λ d. d.meta.uid ≡ b.meta.uid;
    object = λ _. Unit;
    deletion = Unit;
  }

  module _ (b : FluentPvcBinding) where
    keeps_success-Justified :
        (k : Insight) (c : Call) → Memᴰ b k.bindings → Obeys (keeps_success b) c → Justified k c
    keeps_success-Justified k (update_binding_status d) m h = λ e. (b, m, h.0, inl (sym h.1 ∙ e))
    keeps_success-Justified k _ m h = tt

    pub keeps_success-IsHonest :
        {A : Type 0} (k : Insight) (m : Program A)
        → Memᴰ b k.bindings
        → Saves (keeps_success b) m
        → IsHonest k m
    keeps_success-IsHonest k m read =
        Ensures-Keeps evidence (Obeys (keeps_success b)) (λ now. Memᴰ b now.bindings) m
          keeps_success-Justified (λ now c r i. Memᴰ-append (reveals c r) now.bindings i) k read

    same_object-Justified :
        (k : Insight) (c : Call)
        → Memᴰ b k.bindings × Memᴰ b.meta.name k.names
        → Obeys (same_object b) c
        → Justified k c
    same_object-Justified k (update_binding_status d) m h = λ e. (b, m.0, h, inr m.1)
    same_object-Justified k _ m h = tt

    -- once its job has been shown to have succeeded
    pub same_object-IsHonest :
        {A : Type 0} (k : Insight) (m : Program A)
        → Memᴰ b k.bindings
        → Memᴰ b.meta.name k.names
        → Saves (same_object b) m
        → IsHonest k m
    same_object-IsHonest k m read shown =
        Ensures-Keeps evidence (Obeys (same_object b))
          (λ now. Memᴰ b now.bindings × Memᴰ b.meta.name now.names) m same_object-Justified
          (λ now c r i.
            (Memᴰ-append (reveals c r) now.bindings i.0, Memᴰ-append (proves c r) now.names i.1))
          k (read, shown)
