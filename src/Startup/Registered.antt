-- ===== src/Startup/Registered.antt =====
-- What is registered when main.go starts the manager, and which events the controllers hear.
use fluent_pvc_operator.Startup.{up_to_failure, full_plan, main-follows_plan, plan, error_of}
use fluent_pvc_operator.Setup.{
  Step, Manager, steps, main, complete, start_manager, Controller, Event, create_event,
  delete_event, update_event, generic_event, pod_controller, claim_controller,
  fluent_pvc_controller, binding_controller, created_or_updated, not_deleted,
}
use fluent_pvc_operator.Webhooks.Admission.{Codec}
use fluent_pvc_operator.Kube.{Library}
use fluent_pvc_operator.Prelude.{
  ℕ, suc, String, Bool, not, ◌&&◌, true, false, ◌≡◌, refl, sym, ap, ◌∙◌, List, [], ◌∷◌, subst,
  if◌then◌else◌, ◌==◌, All, any, is_some, arith, Bool-cases, inl, inr,
}

abbrev pub is_start : Step → Bool
is_start start_manager = true
is_start _ = false

-- A controller hears that an object is created or updated, and what comes over its channel.
abbrev pub hears : Controller → Event → Bool
hears c create_event = true
hears c delete_event = false
hears c update_event = true
hears c generic_event = c.watches_channel

abbrev pub Listens : Step → Type 0
Listens (complete c) = (e : Event) → c.event_filter e ≡ hears c e
Listens _ = Unit

-- The last step of a plan is the start, and no other.
abbrev only_last_starts : List Step → Bool
only_last_starts [] = false
only_last_starts (s ∷ []) = is_start s
only_last_starts (s ∷ s' ∷ p) = not (is_start s) && only_last_starts (s' ∷ p)

module _ (mgr : Manager) where
  All-up_to_failure :
      (P : Step → Type 0) (n : ℕ) (p : List Step) → All P p → All P (up_to_failure mgr n p)
  All-up_to_failure P n [] h = tt
  All-up_to_failure P n (s ∷ p) h = elim (Bool-cases (is_some (error_of s (mgr n s)))) [
    | inl e ↦ rw e (h.0, tt)
    | inr e ↦ rw e (h.0, All-up_to_failure P (suc n) p h.1)
  ]

  started-up_to_failure :
      (n : ℕ) (p : List Step)
      → only_last_starts p ≡ true
      → any is_start (up_to_failure mgr n p) ≡ true
      → up_to_failure mgr n p ≡ p
  started-up_to_failure n [] last starts = refl
  started-up_to_failure n (s ∷ []) last starts =
      elim (Bool-cases (is_some (error_of s (mgr n s)))) [ inl e ↦ rw e refl | inr e ↦ rw e refl ]
  started-up_to_failure n (s ∷ s' ∷ p) last starts =
      goes_on (is_some (error_of s (mgr n s))) starts
        (started-up_to_failure (suc n) (s' ∷ p) (ground (arith, last)))
    where
      rest : List Step
      rest = up_to_failure mgr (suc n) (s' ∷ p)

      goes_on :
          (failed : Bool)
          → any is_start (s ∷ (if failed then [] else rest)) ≡ true
          → (any is_start rest ≡ true → rest ≡ s' ∷ p)
          → s ∷ (if failed then [] else rest) ≡ s ∷ s' ∷ p
      goes_on true given ih = absurd (ground (arith, last, given))
      goes_on false given ih = ap (λ t. s ∷ t) (ih (ground (arith, last, given)))

module _ (codec : Codec) (l : Library) (mgr : Manager) (config_file : String) where
  created_or_updated-hears :
      (c : Controller) → c.watches_channel ≡ false → (e : Event) → created_or_updated e ≡ hears c e
  unfolding created_or_updated
  created_or_updated-hears c silent create_event = refl
  created_or_updated-hears c silent delete_event = refl
  created_or_updated-hears c silent update_event = refl
  created_or_updated-hears c silent generic_event = sym silent

  binding_controller-Listens : Listens (complete (binding_controller l))
  unfolding binding_controller not_deleted
  binding_controller-Listens create_event = refl
  binding_controller-Listens delete_event = refl
  binding_controller-Listens update_event = refl
  binding_controller-Listens generic_event = refl

  plan-Listens : All Listens (plan codec l)
  unfolding pod_controller claim_controller fluent_pvc_controller
  plan-Listens = (
    tt,
    (
      tt,
      (
        created_or_updated-hears (fluent_pvc_controller l) refl,
        (
          tt,
          (
            tt,
            (
              binding_controller-Listens,
              (
                created_or_updated-hears (claim_controller l) refl,
                (
                  created_or_updated-hears (pod_controller l) refl,
                  (tt, (tt, (tt, (tt, (tt, (tt, tt)))))),
                ),
              ),
            ),
          ),
        ),
      ),
    ),
  )

  full_plan-Listens : All Listens (full_plan codec l config_file)
  full_plan-Listens = elim (Bool-cases (config_file == "")) [
    | inl e ↦ rw e plan-Listens
    | inr e ↦ rw e (tt, plan-Listens)
  ]

  full_plan-starts : only_last_starts (full_plan codec l config_file) ≡ true
  full_plan-starts = elim (Bool-cases (config_file == "")) [ inl e ↦ rw e refl | inr e ↦ rw e refl ]

  -- Whatever the manager answers: every controller that main builds hears creations and updates of
  -- objects, hears no deletion, and hears a generic event exactly if it watches the channel of the
  -- watcher.
  pub main-Listens : All Listens (steps mgr 0 (main codec l config_file))
  main-Listens =
      subst (All Listens) (sym (main-follows_plan codec l mgr config_file).0)
        (All-up_to_failure mgr Listens 0 (full_plan codec l config_file) full_plan-Listens)

  -- Whatever the manager answers: if main starts the manager, then it has taken every step of the
  -- plan, in order and once.
  pub main-starts_complete :
      any is_start (steps mgr 0 (main codec l config_file)) ≡ true
      → steps mgr 0 (main codec l config_file) ≡ full_plan codec l config_file
  main-starts_complete starts =
      let follows = (main-follows_plan codec l mgr config_file).0 in
      follows
      ∙ started-up_to_failure mgr 0 (full_plan codec l config_file) full_plan-starts
          (sym (ap (any is_start) follows) ∙ starts)
