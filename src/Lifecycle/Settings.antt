-- ===== src/Lifecycle/Settings.antt =====
-- What a setter of api/v1alpha1/helpers.go leaves of a binding: its metadata and all flags but one.
use fluent_pvc_operator.Lifecycle.Flags.{
  Flags, flags, meta-set_condition, flags-set_ready, flags-set_out_of_use,
  flags-set_finalizer_job_applied, flags-set_finalizer_job_succeeded,
  flags-set_finalizer_job_failed, flags-set_unknown, flags-set_pod_missing,
  flags-set_not_finalizer_job_applied, flags-set_not_finalizer_job_failed,
}
use fluent_pvc_operator.Prelude.{ℕ, String, true, false, ◌≡◌, ◌∙◌, refl}
use fluent_pvc_operator.Kube.{Library, LibraryLaws}
use fluent_pvc_operator.Api.{
  FluentPvcBinding, set_condition_ready, set_condition_out_of_use,
  set_condition_finalizer_job_applied, set_condition_finalizer_job_succeeded,
  set_condition_finalizer_job_failed, set_condition_unknown, set_condition_pod_missing,
  set_condition_not_finalizer_job_applied, set_condition_not_finalizer_job_failed,
}

-- The same object, with these flags.
pub record Sets (l : Library) (b c : FluentPvcBinding) (g : Flags) : Type 0 where
  pub same_meta : c.meta ≡ b.meta
  pub new_flags : flags l c ≡ g

pub Sets-same : (l : Library) (b : FluentPvcBinding) {g : Flags} → flags l b ≡ g → Sets l b b g
Sets-same l b e = record { same_meta = refl; new_flags = e }

pub Sets-as :
    {l : Library} {b c : FluentPvcBinding} {g h : Flags} → Sets l b c g → g ≡ h → Sets l b c h
Sets-as s e = record { same_meta = s.same_meta; new_flags = s.new_flags ∙ e }

-- One setter after another.
pub Sets-trans :
    {l : Library} {b c d : FluentPvcBinding} {g h k : Flags}
    → Sets l b c g
    → Sets l c d h
    → (flags l c ≡ g → h ≡ k)
    → Sets l b d k
Sets-trans p q e = record {
  same_meta = q.same_meta ∙ p.same_meta;
  new_flags = q.new_flags ∙ e p.new_flags;
}

module _ (l : Library) (laws : LibraryLaws l) (now : ℕ) (b : FluentPvcBinding)
    (reason message : String) where
  pub set_ready-Sets :
      Sets l b (set_condition_ready l now b reason message) (record (flags l b) { ready = true })
  unfolding set_condition_ready
  set_ready-Sets = record {
    same_meta = meta-set_condition l now b _ _ reason message;
    new_flags = flags-set_ready l laws now b reason message;
  }

  pub set_out_of_use-Sets :
      Sets l b
        (set_condition_out_of_use l now b reason message)
        (record (flags l b) { out_of_use = true })
  unfolding set_condition_out_of_use
  set_out_of_use-Sets = record {
    same_meta = meta-set_condition l now b _ _ reason message;
    new_flags = flags-set_out_of_use l laws now b reason message;
  }

  pub set_finalizer_job_applied-Sets :
      Sets l b
        (set_condition_finalizer_job_applied l now b reason message)
        (record (flags l b) { finalizer_job_applied = true })
  unfolding set_condition_finalizer_job_applied
  set_finalizer_job_applied-Sets = record {
    same_meta = meta-set_condition l now b _ _ reason message;
    new_flags = flags-set_finalizer_job_applied l laws now b reason message;
  }

  pub set_finalizer_job_succeeded-Sets :
      Sets l b
        (set_condition_finalizer_job_succeeded l now b reason message)
        (record (flags l b) { finalizer_job_succeeded = true })
  unfolding set_condition_finalizer_job_succeeded
  set_finalizer_job_succeeded-Sets = record {
    same_meta = meta-set_condition l now b _ _ reason message;
    new_flags = flags-set_finalizer_job_succeeded l laws now b reason message;
  }

  pub set_finalizer_job_failed-Sets :
      Sets l b
        (set_condition_finalizer_job_failed l now b reason message)
        (record (flags l b) { finalizer_job_failed = true })
  unfolding set_condition_finalizer_job_failed
  set_finalizer_job_failed-Sets = record {
    same_meta = meta-set_condition l now b _ _ reason message;
    new_flags = flags-set_finalizer_job_failed l laws now b reason message;
  }

  pub set_unknown-Sets :
      Sets l b
        (set_condition_unknown l now b reason message)
        (record (flags l b) { unknown = true })
  unfolding set_condition_unknown
  set_unknown-Sets = record {
    same_meta = meta-set_condition l now b _ _ reason message;
    new_flags = flags-set_unknown l laws now b reason message;
  }

  pub set_pod_missing-Sets :
      Sets l b
        (set_condition_pod_missing l now b reason message)
        (record (flags l b) { pod_missing = true })
  unfolding set_condition_pod_missing
  set_pod_missing-Sets = record {
    same_meta = meta-set_condition l now b _ _ reason message;
    new_flags = flags-set_pod_missing l laws now b reason message;
  }

  pub set_not_finalizer_job_applied-Sets :
      Sets l b
        (set_condition_not_finalizer_job_applied l now b reason message)
        (record (flags l b) { finalizer_job_applied = false })
  unfolding set_condition_not_finalizer_job_applied
  set_not_finalizer_job_applied-Sets = record {
    same_meta = meta-set_condition l now b _ _ reason message;
    new_flags = flags-set_not_finalizer_job_applied l laws now b reason message;
  }

  pub set_not_finalizer_job_failed-Sets :
      Sets l b
        (set_condition_not_finalizer_job_failed l now b reason message)
        (record (flags l b) { finalizer_job_failed = false })
  unfolding set_condition_not_finalizer_job_failed
  set_not_finalizer_job_failed-Sets = record {
    same_meta = meta-set_condition l now b _ _ reason message;
    new_flags = flags-set_not_finalizer_job_failed l laws now b reason message;
  }
