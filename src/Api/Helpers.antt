-- ===== src/Api/Helpers.antt =====
-- api/v1alpha1/helpers.go. A method that changes its receiver returns the new binding; `now` is
-- the time that `meta.SetStatusCondition` reads.
use fluent_pvc_operator.Prelude.{
  ℕ, suc, zero, String, Bool, List, [], ◌∷◌, ◌++◌, ◌==◌, ltb, if◌then◌else◌,
}
use fluent_pvc_operator.Kube.{
  Library, ObjectMeta, Pod, PersistentVolumeClaim, Condition, ConditionStatus, condition_true,
  condition_false, status_is_true,
}
use fluent_pvc_operator.Api.Types.{
  FluentPvc, FluentPvcBinding, ObjectIdentity, ready, out_of_use, finalizer_job_applied,
  finalizer_job_succeeded, finalizer_job_failed, unknown, pod_missing, phase_pending,
}

-- The conditions that hold, in their order: the loop of `resetPhase`.
unfoldable pub true_conditions : List Condition → List Condition
true_conditions [] = []
true_conditions (c ∷ cs) =
    let rest = true_conditions cs in if status_is_true c.status then c ∷ rest else rest

-- The order given to `sort.Slice`: newest first.
abbrev pub is_newer : Condition → Condition → Bool
is_newer c d = ltb d.last_transition_time c.last_transition_time

-- `sort.Slice` on a slice of at most twelve elements (a map of conditions by type has at most
-- seven): a pass that swaps elements six places apart, then an insertion sort from the left.
unfoldable pub swap_pairs : List Condition → List Condition → List Condition × List Condition
swap_pairs [] ds = ([], ds)
swap_pairs (c ∷ cs) [] = (c ∷ cs, [])
swap_pairs (c ∷ cs) (d ∷ ds) =
    let rest = swap_pairs cs ds in
    if is_newer d c then (d ∷ rest.0, c ∷ rest.1) else (c ∷ rest.0, d ∷ rest.1)

unfoldable pub split_at : ℕ → List Condition → List Condition × List Condition
split_at zero cs = ([], cs)
split_at (suc n) [] = ([], [])
split_at (suc n) (c ∷ cs) = let rest = split_at n cs in (c ∷ rest.0, rest.1)

unfoldable pub gap_pass : List Condition → List Condition
unfolding swap_pairs split_at
gap_pass cs =
    let halves = split_at 6 cs in let pairs = swap_pairs halves.0 halves.1 in pairs.0 ++ pairs.1

unfoldable pub insert_newest : Condition → List Condition → List Condition
insert_newest c [] = c ∷ []
insert_newest c (d ∷ ds) = if is_newer c d then c ∷ d ∷ ds else d ∷ insert_newest c ds

unfoldable pub sort_newest : List Condition → List Condition → List Condition
unfolding insert_newest
sort_newest sorted [] = sorted
sort_newest sorted (c ∷ cs) = sort_newest (insert_newest c sorted) cs

unfoldable pub set_phase_pending : FluentPvcBinding → FluentPvcBinding
set_phase_pending b = record b { status = record (b.status) { phase = phase_pending } }

-- `FluentPVCBindingPhase(conditions[0].Type)`
abbrev pub set_phase_latest : FluentPvcBinding → List Condition → FluentPvcBinding
set_phase_latest b [] = b
set_phase_latest b (c ∷ cs) = record b { status = record (b.status) { phase = c.type } }

unfoldable pub reset_phase_of : FluentPvcBinding → List Condition → FluentPvcBinding
unfolding set_phase_pending sort_newest gap_pass
reset_phase_of b [] = set_phase_pending b
reset_phase_of b (c ∷ cs) = set_phase_latest b (sort_newest [] (gap_pass (c ∷ cs)))

unfoldable pub reset_phase : FluentPvcBinding → FluentPvcBinding
unfolding reset_phase_of true_conditions
reset_phase b = reset_phase_of b (true_conditions b.status.conditions)

unfoldable pub to_object_identity : ObjectMeta → ObjectIdentity
to_object_identity o = record { name = o.name; uid = o.uid }

unfoldable pub set_fluent_pvc : FluentPvcBinding → FluentPvc → FluentPvcBinding
unfolding to_object_identity
set_fluent_pvc b fpvc = record b {
  spec = record (b.spec) { fluent_pvc = to_object_identity fpvc.meta };
}

unfoldable pub set_pvc : FluentPvcBinding → PersistentVolumeClaim → FluentPvcBinding
unfolding to_object_identity
set_pvc b pvc = record b { spec = record (b.spec) { pvc = to_object_identity pvc.meta } }

unfoldable pub set_pod : FluentPvcBinding → Pod → FluentPvcBinding
unfolding to_object_identity
set_pod b pod = record b { spec = record (b.spec) { pod = to_object_identity pod.meta } }

unfoldable pub is_binding_pod : FluentPvcBinding → Pod → Bool
is_binding_pod b pod = pod.meta.uid == b.spec.pod.uid

unfoldable pub is_binding_pvc : FluentPvcBinding → PersistentVolumeClaim → Bool
is_binding_pvc b pvc = pvc.meta.uid == b.spec.pvc.uid

module _ (l : Library) where
  unfoldable pub is_controlled_by : FluentPvcBinding → FluentPvc → Bool
  is_controlled_by b fpvc = l.is_controlled_by b.meta fpvc.meta

  unfoldable pub set_condition :
      ℕ → FluentPvcBinding → String → ConditionStatus → String → String → FluentPvcBinding
  unfolding reset_phase
  set_condition now b t status reason message = reset_phase (record b {
    status = record (b.status) {
      conditions = l.set_status_condition now b.status.conditions (record {
        type = t;
        status = status;
        last_transition_time = 0;
        reason = reason;
        message = message;
      });
    };
  })

  unfoldable pub set_condition_true :
      ℕ → FluentPvcBinding → String → String → String → FluentPvcBinding
  unfolding set_condition
  set_condition_true now b t reason message = set_condition now b t condition_true reason message

  unfoldable pub set_condition_false :
      ℕ → FluentPvcBinding → String → String → String → FluentPvcBinding
  unfolding set_condition
  set_condition_false now b t reason message = set_condition now b t condition_false reason message

  unfoldable pub is_condition_ready : FluentPvcBinding → Bool
  is_condition_ready b = l.is_status_condition_true b.status.conditions ready

  unfoldable pub is_condition_out_of_use : FluentPvcBinding → Bool
  is_condition_out_of_use b = l.is_status_condition_true b.status.conditions out_of_use

  unfoldable pub is_condition_finalizer_job_applied : FluentPvcBinding → Bool
  is_condition_finalizer_job_applied b =
      l.is_status_condition_true b.status.conditions finalizer_job_applied

  unfoldable pub is_condition_finalizer_job_succeeded : FluentPvcBinding → Bool
  is_condition_finalizer_job_succeeded b =
      l.is_status_condition_true b.status.conditions finalizer_job_succeeded

  unfoldable pub is_condition_finalizer_job_failed : FluentPvcBinding → Bool
  is_condition_finalizer_job_failed b =
      l.is_status_condition_true b.status.conditions finalizer_job_failed

  unfoldable pub is_condition_unknown : FluentPvcBinding → Bool
  is_condition_unknown b = l.is_status_condition_true b.status.conditions unknown

  unfoldable pub is_condition_pod_missing : FluentPvcBinding → Bool
  is_condition_pod_missing b = l.is_status_condition_true b.status.conditions pod_missing

  unfoldable pub set_condition_ready : ℕ → FluentPvcBinding → String → String → FluentPvcBinding
  unfolding set_condition_true
  set_condition_ready now b = set_condition_true now b ready

  unfoldable pub set_condition_out_of_use :
      ℕ → FluentPvcBinding → String → String → FluentPvcBinding
  unfolding set_condition_true
  set_condition_out_of_use now b = set_condition_true now b out_of_use

  unfoldable pub set_condition_finalizer_job_applied :
      ℕ → FluentPvcBinding → String → String → FluentPvcBinding
  unfolding set_condition_true
  set_condition_finalizer_job_applied now b = set_condition_true now b finalizer_job_applied

  unfoldable pub set_condition_finalizer_job_succeeded :
      ℕ → FluentPvcBinding → String → String → FluentPvcBinding
  unfolding set_condition_true
  set_condition_finalizer_job_succeeded now b = set_condition_true now b finalizer_job_succeeded

  unfoldable pub set_condition_finalizer_job_failed :
      ℕ → FluentPvcBinding → String → String → FluentPvcBinding
  unfolding set_condition_true
  set_condition_finalizer_job_failed now b = set_condition_true now b finalizer_job_failed

  unfoldable pub set_condition_unknown : ℕ → FluentPvcBinding → String → String → FluentPvcBinding
  unfolding set_condition_true
  set_condition_unknown now b = set_condition_true now b unknown

  unfoldable pub set_condition_pod_missing :
      ℕ → FluentPvcBinding → String → String → FluentPvcBinding
  unfolding set_condition_true
  set_condition_pod_missing now b = set_condition_true now b pod_missing

  unfoldable pub set_condition_not_ready : ℕ → FluentPvcBinding → String → String → FluentPvcBinding
  unfolding set_condition_false
  set_condition_not_ready now b = set_condition_false now b ready

  unfoldable pub set_condition_not_out_of_use :
      ℕ → FluentPvcBinding → String → String → FluentPvcBinding
  unfolding set_condition_false
  set_condition_not_out_of_use now b = set_condition_false now b out_of_use

  unfoldable pub set_condition_not_finalizer_job_applied :
      ℕ → FluentPvcBinding → String → String → FluentPvcBinding
  unfolding set_condition_false
  set_condition_not_finalizer_job_applied now b = set_condition_false now b finalizer_job_applied

  unfoldable pub set_condition_not_finalizer_job_succeeded :
      ℕ → FluentPvcBinding → String → String → FluentPvcBinding
  unfolding set_condition_false
  set_condition_not_finalizer_job_succeeded now b =
      set_condition_false now b finalizer_job_succeeded

  unfoldable pub set_condition_not_finalizer_job_failed :
      ℕ → FluentPvcBinding → String → String → FluentPvcBinding
  unfolding set_condition_false
  set_condition_not_finalizer_job_failed now b = set_condition_false now b finalizer_job_failed

  unfoldable pub set_condition_not_unknown :
      ℕ → FluentPvcBinding → String → String → FluentPvcBinding
  unfolding set_condition_false
  set_condition_not_unknown now b = set_condition_false now b unknown
