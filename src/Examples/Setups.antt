-- ===== src/Examples/Setups.antt =====
-- The theorems on the set-up of the manager at a concrete one.
use fluent_pvc_operator.Api.{owner_controller_field}
use fluent_pvc_operator.Startup.{main-follows_plan, full_plan}
use fluent_pvc_operator.Startup.Registered.{main-Listens, Listens, main-starts_complete, is_start}
use fluent_pvc_operator.Setup.{
  Manager, main, steps, outcome, register_webhook, complete, new_manager, load_config,
  index_bindings, fluent_pvc_controller,
}
use fluent_pvc_operator.Controllers.Utils.{index_fluent_pvc_binding_by_owner_fluent_pvc}
use fluent_pvc_operator.Kube.{new}
use fluent_pvc_operator.Prelude.{◌≡◌, ap, none, some, true, All, [], ◌∷◌, any}
use fluent_pvc_operator.Examples.Libraries.{library}
use fluent_pvc_operator.Examples.Data.{codec}

-- Nothing fails.
abbrev willing : Manager
willing n (register_webhook path handler) = tt
willing n _ = none

-- No controller can be built.
abbrev unwilling : Manager
unwilling n (register_webhook path handler) = tt
unwilling n (complete c) = some (new "no controller")
unwilling n _ = none

main-follows_plan_example :
    (steps unwilling 0 (main codec library "config.yaml")
      ≡ load_config "config.yaml"
        ∷ new_manager
        ∷ index_bindings owner_controller_field
            (index_fluent_pvc_binding_by_owner_fluent_pvc library)
        ∷ complete (fluent_pvc_controller library)
        ∷ [])
    × (outcome unwilling 0 (main codec library "config.yaml") ≡ 1)
main-follows_plan_example = main-follows_plan codec library unwilling "config.yaml"

main-Listens_example : All Listens (steps willing 0 (main codec library ""))
main-Listens_example = main-Listens codec library willing ""

willing_starts : any is_start (steps willing 0 (main codec library "")) ≡ true
willing_starts = ap (any is_start) (main-follows_plan codec library willing "").0

main-starts_complete_example : steps willing 0 (main codec library "") ≡ full_plan codec library ""
main-starts_complete_example = main-starts_complete codec library willing "" willing_starts
