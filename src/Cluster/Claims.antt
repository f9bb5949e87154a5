-- ===== src/Cluster/Claims.antt =====
-- The claim reconciler as a process, controllers/pvc_controller.go.
use fluent_pvc_operator.Controllers.Utils.{Result, no_requeue}
use fluent_pvc_operator.Cluster.Duties.{IsCareful, shown, KeptUid, Careful-if}
use fluent_pvc_operator.Controllers.Claims.{
  on_pvc, on_binding, reconcile, delete_claim, on_update, release, when_applied, on_applied,
  when_out_of_use, on_fluent_pvc, apply_job, on_jobs, later,
}
use mathlib.Core.List.{Memᴰ}
use fluent_pvc_operator.Prelude.{
  true, false, not, ◌&&◌, ◌≡◌, refl, Option, none, some, List, [], ◌∷◌, ◌++◌, ◌==◌, arith, inl, inr,
  eq_iff, ◌∙◌,
}
use fluent_pvc_operator.Kube.{
  Library, LibraryLaws, Reply, success, failure, Outcome, PersistentVolumeClaim, ObjectKey, ok, err,
  OwnerReference, Job, panicked,
}
use fluent_pvc_operator.Api.{
  FluentPvcBinding, FluentPvc, pvc_finalizer_name, is_condition_unknown, is_condition_out_of_use,
  is_condition_pod_missing, is_condition_finalizer_job_applied,
  is_condition_finalizer_job_succeeded, is_condition_finalizer_job_failed,
}
use fluent_pvc_operator.Controllers.Claims.Release.{unprotected, MayRelease}

module _ (l : Library) (laws : LibraryLaws l) (b : FluentPvcBinding) (pvc : PersistentVolumeClaim)
    (bound : pvc.meta.uid ≡ b.spec.pvc.uid) where
  module _ (may : MayRelease l b) where
    delete_claim-IsCareful :
        (seen : List FluentPvcBinding) (p : PersistentVolumeClaim)
        → Memᴰ b seen
        → p.meta.uid ≡ b.spec.pvc.uid
        → IsCareful l seen (delete_claim l p)
    unfolding delete_claim
    delete_claim-IsCareful seen p read e = ((b, read, (e, may)), λ r _. tt)

    on_update-IsCareful :
        (seen : List FluentPvcBinding) (on_conflict : Result) (p : PersistentVolumeClaim)
        (r : Reply PersistentVolumeClaim)
        → Memᴰ b seen
        → p.meta.uid ≡ b.spec.pvc.uid
        → KeptUid p r
        → IsCareful l seen (on_update l on_conflict p r)
    unfolding on_update
    on_update-IsCareful seen oc p (success stored) read e k =
        delete_claim-IsCareful seen stored read (k ∙ e)
    on_update-IsCareful seen oc p (failure x) read e k =
        Careful-if l seen (λ _ _. Unit) (l.is_not_found x) _ _
          (λ _. delete_claim-IsCareful seen p read e)
          (λ _. Careful-if l seen (λ _ _. Unit) (l.is_conflict x) _ _ (λ _. tt) (λ _. tt))

    release-IsCareful :
        (seen : List FluentPvcBinding) (on_conflict : Result)
        → Memᴰ b seen
        → IsCareful l seen (release l on_conflict pvc)
    unfolding release
    release-IsCareful seen oc read = (
      (b, read, (uid-unprotected, may)),
      λ r k. on_update-IsCareful seen oc (unprotected l pvc) r read uid-unprotected k,
    )
      where
        uid-unprotected : (unprotected l pvc).meta.uid ≡ b.spec.pvc.uid
        uid-unprotected = (laws.version-remove pvc.meta pvc_finalizer_name).0 ∙ bound

  module _ (known : is_condition_unknown l b ≡ false)
      (used : is_condition_out_of_use l b ≡ true) where
    when_applied-IsCareful :
        (seen : List FluentPvcBinding) → Memᴰ b seen → IsCareful l seen (when_applied l pvc b)
    unfolding when_applied
    when_applied-IsCareful seen read =
        Careful-if l seen (λ _ _. Unit)
          (not (is_condition_finalizer_job_succeeded l b)
            && not (is_condition_finalizer_job_failed l b))
          _ _ (λ _. tt)
          (λ e.
            Careful-if l seen (λ _ _. Unit) (is_condition_finalizer_job_failed l b) _ _ (λ _. tt)
              (λ f.
                release-IsCareful
                  (inr (record {
                    known = known;
                    out_of_use = used;
                    succeeded = ground arith;
                    not_failed = f;
                  }))
                  seen later read))

    on_applied-IsCareful :
        (seen : List FluentPvcBinding) (o : Outcome (Unit {0}))
        → Memᴰ b seen
        → IsCareful l seen (on_applied l pvc b o)
    unfolding on_applied
    on_applied-IsCareful seen (ok _) read = when_applied-IsCareful seen read
    on_applied-IsCareful seen (err e) read = tt
    on_applied-IsCareful seen panicked read = tt

    module _ (came : is_condition_pod_missing l b ≡ false)
        (unapplied : is_condition_finalizer_job_applied l b ≡ false) (seen : List FluentPvcBinding)
        (read : Memᴰ b seen) where
      on_fluent_pvc-IsCareful : (r : Reply FluentPvc) → IsCareful l seen (on_fluent_pvc l pvc b r)
      unfolding on_fluent_pvc
      on_fluent_pvc-IsCareful (failure e) = tt
      on_fluent_pvc-IsCareful (success fpvc) = (
        (
          b,
          read,
          (
            refl,
            record { pod_came = came; known = known; out_of_use = used; unapplied = unapplied },
          ),
        ),
        λ o _. on_applied-IsCareful seen o read,
      )

      apply_job-IsCareful : (o : Option OwnerReference) → IsCareful l seen (apply_job l pvc b o)
      unfolding apply_job
      apply_job-IsCareful none = tt
      apply_job-IsCareful (some owner) = (tt, λ r _. on_fluent_pvc-IsCareful r)

      on_jobs-IsCareful : (r : Reply (List Job)) → IsCareful l seen (on_jobs l pvc b r)
      unfolding on_jobs
      on_jobs-IsCareful (success []) = apply_job-IsCareful _
      on_jobs-IsCareful (success (j ∷ js)) = tt
      on_jobs-IsCareful (failure e) =
          Careful-if l seen (λ _ _. Unit) (l.is_not_found e) _ _ (λ _. apply_job-IsCareful _)
            (λ _. tt)

    when_out_of_use-IsCareful :
        is_condition_pod_missing l b ≡ false
        → (seen : List FluentPvcBinding) → Memᴰ b seen
        → IsCareful l seen (when_out_of_use l pvc b)
    unfolding when_out_of_use
    when_out_of_use-IsCareful came seen read =
        Careful-if l seen (λ _ _. Unit) (not (is_condition_finalizer_job_applied l b)) _ _
          (λ e. (tt, λ r _. on_jobs-IsCareful came (ground arith) seen read r))
          (λ _. when_applied-IsCareful seen read)

module _ (l : Library) (laws : LibraryLaws l) where
  on_binding-IsCareful :
      (pvc : PersistentVolumeClaim) (r : Reply FluentPvcBinding)
      → IsCareful l (shown r ++ []) (on_binding l pvc r)
  unfolding on_binding
  on_binding-IsCareful pvc (failure e) = tt
  on_binding-IsCareful pvc (success b) =
      Careful-if l (b ∷ []) Q (not (pvc.meta.uid == b.spec.pvc.uid)) _ _ (λ _. tt)
        (λ same.
          let bound : pvc.meta.uid ≡ b.spec.pvc.uid =
            (eq_iff pvc.meta.uid b.spec.pvc.uid).0 (ground arith) in
          Careful-if l (b ∷ []) Q (is_condition_pod_missing l b) _ _
            (λ missing. release-IsCareful l laws b pvc bound (inl missing) (b ∷ []) no_requeue here)
            (λ came.
              Careful-if l (b ∷ []) Q (is_condition_unknown l b) _ _ (λ _. tt)
                (λ known.
                  Careful-if l (b ∷ []) Q (not (is_condition_out_of_use l b)) _ _ (λ _. tt)
                    (λ used.
                      when_out_of_use-IsCareful l laws b pvc bound known (ground arith) came
                        (b ∷ []) here))))
    where
      Q : List FluentPvcBinding → Outcome Result → Type 0
      Q _ _ = Unit

      here : Memᴰ b (b ∷ [])
      here = Memᴰ.head refl

  on_pvc-IsCareful :
      (req : ObjectKey) (r : Reply PersistentVolumeClaim) → IsCareful l [] (on_pvc l req r)
  unfolding on_pvc
  on_pvc-IsCareful req (failure e) = tt
  on_pvc-IsCareful req (success pvc) = (tt, λ r _. on_binding-IsCareful pvc r)

  pub reconcile-IsCareful : (req : ObjectKey) → IsCareful l [] (reconcile l req)
  unfolding reconcile
  reconcile-IsCareful req = (tt, λ r _. on_pvc-IsCareful req r)
