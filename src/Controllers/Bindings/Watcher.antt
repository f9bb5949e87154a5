-- ===== src/Controllers/Bindings/Watcher.antt =====
-- `Start` and `fireEvent` of the watcher in controllers/fluentpvcbinding_controller.go.
use fluent_pvc_operator.Prelude.{
  ℕ, zero, suc, String, Option, none, some, List, [], ◌∷◌, ◌==◌, if◌then◌else◌,
}
use fluent_pvc_operator.Kube.{success, failure, api, wrap, Outcome, ok, err, panicked}
use fluent_pvc_operator.Api.{FluentPvcBinding}
use fluent_pvc_operator.Effect.{Program, ◌>>=◌, ret, call, list_binding_page, send_event}
use fluent_pvc_operator.Controllers.Utils.{unexpected}

abbrev pub list_limit : ℕ
list_limit = 300

-- the loop over the items of a page, then what follows it
unfoldable pub send_all : {A : Type 0} → List FluentPvcBinding → Program A → Program A
send_all [] next = next
send_all (b ∷ bs) next = call (send_event b) (λ _. send_all bs next)

-- The loop over the pages with fuel; `none` means that the fuel ran out.
unfoldable pub fire_pages : ℕ → String → Program (Option (Outcome (Unit {0})))
unfolding send_all
fire_pages zero token = ret none
fire_pages (suc fuel) token = call (list_binding_page list_limit token) (elim [
  | failure e ↦ ret (some (err (wrap unexpected (api e))))
  | success page ↦
      send_all page.items
        (if page.continue == "" then ret (some (ok tt)) else fire_pages fuel page.continue)
])

unfoldable pub fire_event : ℕ → Program (Option (Outcome (Unit {0})))
unfolding fire_pages
fire_event fuel = fire_pages fuel ""

-- What the `select` of Start receives: the end of the context, or a tick.
pub data Signal : Type 0 where
  done tick : Signal

-- after a round: the rest of the loop, unless the round has failed
unfoldable pub on_fired :
    Program (Option (Outcome (Unit {0})))
    → Option (Outcome (Unit {0}))
    → Program (Option (Outcome (Unit {0})))
on_fired next (some (ok u)) = next
on_fired next (some (err e)) = ret (some (err (wrap unexpected e)))
on_fired next (some panicked) = ret (some panicked)
on_fired next none = ret none

-- The loop on the signals that it receives, with the fuel of each round; `none` means that the
-- signals or the fuel ran out.
unfoldable pub start : ℕ → List Signal → Program (Option (Outcome (Unit {0})))
unfolding fire_event on_fired
start fuel [] = ret none
start fuel (done ∷ ss) = ret (some (ok tt))
start fuel (tick ∷ ss) = fire_event fuel >>= on_fired (start fuel ss)
