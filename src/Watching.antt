-- ===== src/Watching.antt =====
-- The rounds of the watcher in controllers/fluentpvcbinding_controller.go.
use Prim.Native.Nat.{zero}
use mathlib.Core.List.{append-nil}
use fluent_pvc_operator.Prelude.{
  ℕ, suc, String, true, false, ◌≡◌, refl, ap, ◌∙◌, some, List, [], ◌∷◌, ◌++◌, ◌==◌, if◌then◌else◌,
  Option, arith, sym,
}
use fluent_pvc_operator.Kube.{success, ok, Outcome}
use fluent_pvc_operator.Api.{FluentPvcBinding}
use fluent_pvc_operator.Effect.{
  BindingPage, Call, Program, Environment, calls, result, list_binding_page, send_event, ret, ◌>>=◌,
  call,
}
use fluent_pvc_operator.Controllers.Bindings.{
  list_limit, send_all, fire_pages, fire_event, Signal, start, tick, on_fired, done,
}

-- The bindings that are sent, in order.
abbrev pub events : List Call → List FluentPvcBinding
events [] = []
events (send_event b ∷ cs) = b ∷ events cs
events (_ ∷ cs) = events cs

events-append : (cs ds : List Call) → events (cs ++ ds) ≡ events cs ++ events ds
events-append [] ds = refl
events-append (send_event b ∷ cs) ds = ap (λ t. b ∷ t) (events-append cs ds)
events-append (_ ∷ cs) ds = events-append cs ds

-- A list, sent so many times.
abbrev pub rounds : ℕ → List FluentPvcBinding → List FluentPvcBinding
rounds zero bs = []
rounds (suc k) bs = bs ++ rounds k bs

-- So many ticks before these signals.
abbrev pub ticks : ℕ → List Signal → List Signal
ticks zero ss = ss
ticks (suc k) ss = tick ∷ ticks k ss

module _ (page_of : String → BindingPage) where
  -- At most so many pages follow a token, and these are the bindings on them.
  pub data Pages : ℕ → String → List FluentPvcBinding → Type 0 where
    last :
        {fuel : ℕ} {t : String} {bs : List FluentPvcBinding}
        → ((page_of t).continue == "") ≡ true
        → bs ≡ (page_of t).items
        → Pages (suc fuel) t bs
    more :
        {fuel : ℕ} {t : String} {rest bs : List FluentPvcBinding}
        → ((page_of t).continue == "") ≡ false
        → Pages fuel (page_of t).continue rest
        → bs ≡ (page_of t).items ++ rest
        → Pages (suc fuel) t bs

  module _ (env : Environment)
      (serves : (n : ℕ) (t : String)
        → env n (list_binding_page list_limit t) ≡ success (page_of t)) where
    send_all-events :
        {A : Type 0} (n : ℕ) (bs : List FluentPvcBinding) (next : Program A)
        → (k : ℕ) × (events (calls env n (send_all bs next)) ≡ bs ++ events (calls env k next))
          × (result env n (send_all bs next) ≡ result env k next)
    unfolding send_all
    send_all-events n [] next = (n, refl, refl)
    send_all-events n (b ∷ bs) next =
        let (k, e, r) = send_all-events (suc n) bs next in (k, ap (λ t. b ∷ t) e, r)

    abbrev after_page : ℕ → String → Program (Option (Outcome (Unit {0})))
    after_page f t =
        if (page_of t).continue == "" then ret (some (ok tt)) else fire_pages f (page_of t).continue

    fire_pages-suc :
        (f n : ℕ) (t : String)
        → (events (calls env n (fire_pages (suc f) t))
            ≡ events (calls env (suc n) (send_all (page_of t).items (after_page f t))))
          × (result env n (fire_pages (suc f) t)
              ≡ result env (suc n) (send_all (page_of t).items (after_page f t)))
    unfolding fire_pages
    fire_pages-suc f n t = (simp (serves n t), ground (arith, serves n t))

    -- One page, and whatever its last step goes on with.
    page_events :
        (f n : ℕ) (t : String) (rest : List FluentPvcBinding)
        → ((k : ℕ)
            → (events (calls env k (after_page f t)) ≡ rest)
              × (result env k (after_page f t) ≡ some (ok tt)))
        → (events (calls env n (fire_pages (suc f) t)) ≡ (page_of t).items ++ rest)
          × (result env n (fire_pages (suc f) t) ≡ some (ok tt))
    page_events f n t rest claim =
        let (v, r) = fire_pages-suc f n t in
        let (k, v', r') = send_all-events (suc n) (page_of t).items (after_page f t) in
        let (w, s) = claim k in (v ∙ v' ∙ ap (λ z. (page_of t).items ++ z) w, r ∙ r' ∙ s)

    fire_pages-events :
        {fuel : ℕ} {t : String} {bs : List FluentPvcBinding} (n : ℕ)
        → Pages fuel t bs
        → (events (calls env n (fire_pages fuel t)) ≡ bs)
          × (result env n (fire_pages fuel t) ≡ some (ok tt))
    fire_pages-events {t = t} n (last {fuel = f} e b) =
        let (v, r) = page_events f n t [] (λ k. rw e (refl, refl)) in (v ∙ append-nil _ ∙ sym b, r)
    fire_pages-events {t = t} n (more {fuel = f} {rest = rest} e p b) =
        let (v, r) = page_events f n t rest (λ k. rw e (fire_pages-events k p)) in (v ∙ sym b, r)

    -- Where the list comes in pages that end, and with at least as much fuel as there are pages, a
    -- round of the watcher ends without an error and has sent the listed bindings, each once and in
    -- their order.
    pub fire_event-sends_all :
        (fuel : ℕ) (bs : List FluentPvcBinding)
        → Pages fuel "" bs
        → (events (calls env 0 (fire_event fuel)) ≡ bs)
          × (result env 0 (fire_event fuel) ≡ some (ok tt))
    unfolding fire_event
    fire_event-sends_all fuel bs p = fire_pages-events 0 p

    calls-bind :
        {A B : Type 0} (n : ℕ) (m : Program A) (f : A → Program B)
        → (k : ℕ) × (calls env n (m >>= f) ≡ calls env n m ++ calls env k (f (result env n m)))
          × (result env n (m >>= f) ≡ result env k (f (result env n m)))
    calls-bind n (ret a) f = (n, refl, refl)
    calls-bind n (call c next) f =
        let (k, e, r) = calls-bind (suc n) (next (env n c)) f in (k, ap (λ t. c ∷ t) e, r)

    start-rounds :
        (fuel k n : ℕ) (ss : List Signal) (bs : List FluentPvcBinding)
        → Pages fuel "" bs
        → (events (calls env n (start fuel (ticks k (done ∷ ss)))) ≡ rounds k bs)
          × (result env n (start fuel (ticks k (done ∷ ss))) ≡ some (ok tt))
    unfolding start on_fired fire_event
    start-rounds fuel zero n ss bs p = (refl, refl)
    start-rounds fuel (suc k) n ss bs p =
        let (v, r) = fire_pages-events n p in
        let rest = start fuel (ticks k (done ∷ ss)) in
        let (m, e, s) = calls-bind n (fire_event fuel) (on_fired rest) in
        let (v', r') = start-rounds fuel k m ss bs p in
        let sent = λ (x : Option (Outcome (Unit {0}))). events (calls env m (on_fired rest x)) in
        (
          ap events e
              ∙ events-append (calls env n (fire_event fuel)) _
              ∙ ap (λ z. z ++ sent (result env n (fire_event fuel))) v
              ∙ ap (λ x. bs ++ sent x) r
              ∙ ap (λ z. bs ++ z) v',
          s ∙ ap (λ x. result env m (on_fired rest x)) r ∙ r',
        )

    -- Where the list comes in pages that end, and with at least as much fuel as there are pages,
    -- the loop of the watcher on k ticks and then the end of the context sends the listed bindings
    -- k times, in their order, and ends without an error, whatever signals would follow.
    pub start-sends_rounds :
        (fuel k : ℕ) (ss : List Signal) (bs : List FluentPvcBinding)
        → Pages fuel "" bs
        → (events (calls env 0 (start fuel (ticks k (done ∷ ss)))) ≡ rounds k bs)
          × (result env 0 (start fuel (ticks k (done ∷ ss))) ≡ some (ok tt))
    start-sends_rounds fuel k ss bs p = start-rounds fuel k 0 ss bs p
