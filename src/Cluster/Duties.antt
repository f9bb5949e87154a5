-- ===== src/Cluster/Duties.antt =====
-- What a process of the operator has learned of bindings, and what it owes to the others when it
-- writes: the calls of controllers and webhooks against the versions that the process has read.
use fluent_pvc_operator.Cluster.Contracts.{Contract, Keeps, Keeps-if, Keeps-bind, Ensures-Keeps}
use fluent_pvc_operator.Controllers.Claims.{new_job}
use fluent_pvc_operator.Lifecycle.Flags.{flags}
use fluent_pvc_operator.Lifecycle.Rules.{Rules, Obeys, Saves}
use fluent_pvc_operator.Lifecycle.Decisions.{Rewrites, MayBeDeleted, rules}
use fluent_pvc_operator.Controllers.Claims.Release.{MayRelease}
use fluent_pvc_operator.Lifecycle.Steps.{Step}
use mathlib.Core.List.{Memᴰ}
use fluent_pvc_operator.Prelude.{
  Bool, true, false, ◌≡◌, ◌⊎◌, inl, List, [], ◌∷◌, ◌++◌, if◌then◌else◌,
}
use fluent_pvc_operator.Kube.{
  Library, Reply, success, failure, PersistentVolumeClaim, SameVersion, Job,
}
use fluent_pvc_operator.Api.{
  FluentPvcBinding, is_condition_pod_missing, is_condition_unknown, is_condition_out_of_use,
  is_condition_finalizer_job_applied,
}
use fluent_pvc_operator.Effect.{
  BindingPage, Call, Answer, Program, get_binding, list_bindings, list_binding_page, create_binding,
  update_binding, update_binding_status, update_pvc, delete_pvc, delete_binding,
  create_or_update_job, ◌>>=◌,
}

abbrev pub shown : Reply FluentPvcBinding → List FluentPvcBinding
shown (success b) = b ∷ []
shown (failure e) = []

abbrev pub shown_all : Reply (List FluentPvcBinding) → List FluentPvcBinding
shown_all (success bs) = bs
shown_all (failure e) = []

abbrev pub shown_page : Reply BindingPage → List FluentPvcBinding
shown_page (success p) = p.items
shown_page (failure e) = []

-- The bindings that the answer to a call shows.
abbrev pub reveals : (c : Call) → Answer c → List FluentPvcBinding
reveals (get_binding k) r = shown r
reveals (list_bindings o) r = shown_all r
reveals (list_binding_page n t) r = shown_page r
reveals (create_binding b) r = shown r
reveals (update_binding b) r = shown r
reveals (update_binding_status b) r = shown r
reveals _ r = []

abbrev pub KeptStatus : FluentPvcBinding → Reply FluentPvcBinding → Type 0
KeptStatus b (success stored) = stored.status ≡ b.status
KeptStatus b (failure e) = Unit

abbrev pub KeptUid : PersistentVolumeClaim → Reply PersistentVolumeClaim → Type 0
KeptUid p (success stored) = stored.meta.uid ≡ p.meta.uid
KeptUid p (failure e) = Unit

-- What a process may rely on in the answer to a call.
abbrev pub Relies : (c : Call) → Answer c → Type 0
Relies (update_binding b) r = KeptStatus b r
Relies (update_pvc p) r = KeptUid p r
Relies _ r = Unit

-- A binding that the process has read says so.
abbrev pub Informed : List FluentPvcBinding → (FluentPvcBinding → Type 0) → Type 0
Informed seen P = (b : FluentPvcBinding) × Memᴰ b seen × P b

pub Memᴰ-append {ℓ} : {A : Type ℓ} {a : A} (new old : List A) → Memᴰ a old → Memᴰ a (new ++ old)
Memᴰ-append [] old m = m
Memᴰ-append (x ∷ new) old m = Memᴰ.tail (Memᴰ-append new old m)

module _ (l : Library) where
  -- A stored status is a step of the diagram, or tells nothing new.
  abbrev pub Onward : FluentPvcBinding → FluentPvcBinding → Type 0
  Onward b c = Step (flags l b) (flags l c) ⊎ (flags l c ≡ flags l b)

  abbrev pub OwesStatus : FluentPvcBinding → FluentPvcBinding → Type 0
  OwesStatus c b = SameVersion c.meta b.meta × Onward b c

  -- The claim is that of the binding, and the binding lets it go.
  abbrev pub OwesRelease : PersistentVolumeClaim → FluentPvcBinding → Type 0
  OwesRelease p b = (p.meta.uid ≡ b.spec.pvc.uid) × MayRelease l b

  -- The claim of the binding is out of use, and no job has been seen.
  pub record AwaitsJob (b : FluentPvcBinding) : Type 0 where
    pub pod_came : is_condition_pod_missing l b ≡ false
    pub known : is_condition_unknown l b ≡ false
    pub out_of_use : is_condition_out_of_use l b ≡ true
    pub unapplied : is_condition_finalizer_job_applied l b ≡ false

  abbrev pub OwesJob : Job → FluentPvcBinding → Type 0
  OwesJob j b = (j ≡ new_job b) × AwaitsJob b

  -- What a call owes to the bindings that were read before.
  abbrev pub Owes : List FluentPvcBinding → Call → Type 0
  Owes seen (update_binding_status c) = Informed seen (OwesStatus c)
  Owes seen (update_binding c) = Informed seen (λ b. Rewrites b c)
  Owes seen (delete_binding c o) = Informed seen (MayBeDeleted l)
  Owes seen (update_pvc p) = Informed seen (OwesRelease p)
  Owes seen (delete_pvc p o) = Informed seen (OwesRelease p)
  Owes seen (create_or_update_job j f) = Informed seen (OwesJob j)
  Owes seen _ = Unit

  -- A process remembers the bindings that it has been shown.
  abbrev pub duties : Contract
  duties = record {
    Knowledge = List FluentPvcBinding;
    learn = λ seen c r. reveals c r ++ seen;
    owed = Owes;
    relied = Relies;
  }

  abbrev pub Careful :
      {A : Type 0}
      → List FluentPvcBinding
      → (List FluentPvcBinding → A → Type 0)
      → Program A
      → Type 0
  Careful seen Q m = Keeps duties seen Q m

  -- whatever the result is
  abbrev pub IsCareful : {A : Type 0} → List FluentPvcBinding → Program A → Type 0
  IsCareful seen m = Careful seen (λ _ _. Unit) m

  pub Careful-if :
      {A : Type 0} (seen : List FluentPvcBinding) (Q : List FluentPvcBinding → A → Type 0)
      (t : Bool) (m n : Program A)
      → (t ≡ true → Careful seen Q m)
      → (t ≡ false → Careful seen Q n)
      → Careful seen Q (if t then m else n)
  Careful-if = Keeps-if duties

  pub Careful-bind :
      {A B : Type 0} (seen : List FluentPvcBinding) (R : List FluentPvcBinding → A → Type 0)
      (Q : List FluentPvcBinding → B → Type 0) (m : Program A) (f : A → Program B)
      → Careful seen R m
      → ((now : List FluentPvcBinding) (a : A) → R now a → Careful now Q (f a))
      → Careful seen Q (m >>= f)
  Careful-bind = Keeps-bind duties

  -- a program that writes nothing of a binding
  abbrev pub no_writes : Rules
  no_writes = record { status = λ _. ⊥; object = λ _. ⊥; deletion = ⊥ }

  Obeys-no_writes : (seen : List FluentPvcBinding) (c : Call) → Obeys no_writes c → Owes seen c
  Obeys-no_writes seen (update_binding_status c) o = absurd o
  Obeys-no_writes seen (update_binding c) o = absurd o
  Obeys-no_writes seen (delete_binding c p) o = absurd o
  Obeys-no_writes seen (update_pvc p) o = absurd o
  Obeys-no_writes seen (delete_pvc p q) o = absurd o
  Obeys-no_writes seen (create_or_update_job j f) o = absurd o
  Obeys-no_writes seen _ o = tt

  pub no_writes-IsCareful :
      {A : Type 0} (seen : List FluentPvcBinding) (m : Program A)
      → Saves no_writes m
      → IsCareful seen m
  no_writes-IsCareful seen m =
      Ensures-Keeps duties (Obeys no_writes) (λ _. Unit) m (λ now c i. Obeys-no_writes now c)
        (λ now c r i. tt) seen tt

  Obeys-rules :
      (b : FluentPvcBinding) (seen : List FluentPvcBinding) (c : Call)
      → Memᴰ b seen
      → Obeys (rules l b) c
      → Owes seen c
  Obeys-rules b seen (update_binding_status c) m o = (b, m, (o.0, inl o.1))
  Obeys-rules b seen (update_binding c) m o = (b, m, o)
  Obeys-rules b seen (delete_binding c p) m o = (b, m, o)
  Obeys-rules b seen (update_pvc p) m o = absurd o
  Obeys-rules b seen (delete_pvc p q) m o = absurd o
  Obeys-rules b seen (create_or_update_job j f) m o = absurd o
  Obeys-rules b seen _ m o = tt

  pub rules-IsCareful :
      {A : Type 0} (b : FluentPvcBinding) (seen : List FluentPvcBinding) (m : Program A)
      → Memᴰ b seen
      → Saves (rules l b) m
      → IsCareful seen m
  rules-IsCareful b seen m read =
      Ensures-Keeps duties (Obeys (rules l b)) (λ now. Memᴰ b now) m (Obeys-rules b)
        (λ now c r i. Memᴰ-append (reveals c r) now i) seen read
