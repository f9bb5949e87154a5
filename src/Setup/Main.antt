-- ===== src/Setup/Main.antt =====
-- `main` of main.go, from the parsed flags on. The result is the exit status.
use fluent_pvc_operator.Setup.Steps.{
  Wiring, done, step, ◌>>=◌, load_config, new_manager, add_healthz_check, add_readyz_check,
  start_manager,
}
use fluent_pvc_operator.Setup.Controllers.{
  setup_fluent_pvcs, setup_bindings, setup_claims, setup_pods, setup_pod_webhook,
  setup_fluent_pvc_webhook,
}
use fluent_pvc_operator.Webhooks.Admission.{Codec}
use fluent_pvc_operator.Kube.{Library, Error}
use fluent_pvc_operator.Prelude.{ℕ, String, Option, none, some, ◌==◌, if◌then◌else◌}

-- `if err != nil { os.Exit(1) }`
abbrev pub exit_on : Option Error → Wiring ℕ → Wiring ℕ
exit_on none next = next
exit_on (some e) next = done 1

-- the readiness check: whether the webhook server takes a connection
unfoldable pub is_ready : Option Error → Option Error
is_ready (some e) = some e
is_ready none = none

module _ (codec : Codec) (l : Library) where
  -- the last part: the checks and the start
  unfoldable pub check_and_start : Wiring ℕ
  check_and_start = step add_healthz_check (λ r. exit_on r (
      step (add_readyz_check is_ready)
        (λ r. exit_on r (step start_manager (λ r. exit_on r (done 0))))))

  unfoldable pub register_all : Wiring ℕ
  register_all = setup_fluent_pvcs l >>= λ r. exit_on r (
      setup_bindings l >>= λ r. exit_on r (
        setup_claims l >>= λ r. exit_on r (
          setup_pods l >>= λ r. exit_on r (
            setup_pod_webhook l codec >>= λ r.
            exit_on r (setup_fluent_pvc_webhook l codec >>= λ r. exit_on r check_and_start)))))

  unfoldable pub with_manager : Wiring ℕ
  with_manager = step new_manager (λ r. exit_on r register_all)

  unfoldable pub main : String → Wiring ℕ
  main config_file =
      if config_file == ""
      then with_manager
      else step (load_config config_file) (λ r. exit_on r with_manager)
