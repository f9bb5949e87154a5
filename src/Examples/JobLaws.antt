-- ===== src/Examples/JobLaws.antt =====
-- The laws of the jobs of the example's server.
use fluent_pvc_operator.Examples.Server.{
  Stored, respond, server, one, two, three, nothing, applied, four, has_job, job_record,
  binding_name, is_current,
}
use fluent_pvc_operator.Examples.ServerLaws.{at_answer, filed, Memᴰ-versions}
use fluent_pvc_operator.Cluster.Jobs.{JobLaws}
use fluent_pvc_operator.Cluster.Evidence.{proves}
use fluent_pvc_operator.Controllers.Utils.{is_job_succeeded}
use fluent_pvc_operator.Effect.{Call, update_binding_status, list_jobs}
use fluent_pvc_operator.Prelude.{
  true, ◌≡◌, ◌==◌, ◌&&◌, refl, inl, inr, All, Bool-cases, eq_iff, arith, subst, sym, ◌∙◌,
}

stays : (s : Stored) (c : Call) → has_job s ≡ true → has_job (respond s c).1 ≡ true
stays nothing c h = ground arith
stays (one b) c h = ground arith
stays (two d b) c h = ground arith
stays (three e d b) c h = ground arith
stays (applied e d b) (update_binding_status x) h = elim (Bool-cases (is_current "3" x)) [
  | inl p ↦ rw p refl
  | inr p ↦ rw p refl
]
stays (applied e d b) _ h = refl
stays (four f e d b) (update_binding_status x) h = refl
stays (four f e d b) _ h = refl

shows_jobs :
    (s : Stored) (c : Call)
    → All
        (λ name. (has_job (respond s c).1 ≡ true) × (name ≡ binding_name))
        (proves c (respond s c).0)
unfolding is_job_succeeded
shows_jobs s (list_jobs name) = elim (Bool-cases (has_job s && name == binding_name)) [
  | inl p ↦ rw p ((ground arith, (eq_iff name binding_name).0 (ground arith)), tt)
  | inr p ↦ rw p tt
]
shows_jobs s _ = tt

pub job_laws : JobLaws server job_record
job_laws = record {
  shows = λ s s' c r h.
      at_answer (λ c r s'. All (λ name. (has_job s' ≡ true) × (name ≡ binding_name)) (proves c r))
        s.0 s'.0 c r h.0 (shows_jobs s.0 c);
  keeps = λ s s' c r name h k. (subst (λ t. has_job t.1 ≡ true) h.0 (stays s.0 c k.0), k.1);
  others_keep = λ s s' name h k. subst (λ t. job_record.succeeded_names t name) h k;
  named = λ s u b c m n.
      (filed s.0 b (Memᴰ-versions s.0 u b m).1).2 ∙ sym (filed s.0 c (Memᴰ-versions s.0 u c n).1).2;
}
