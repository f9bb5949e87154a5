-- ===== src/Lifecycle/Steps.antt =====
-- The diagram of a binding's conditions: which flags one stored status may change.
use fluent_pvc_operator.Prelude.{Bool, true, false, ◌≡◌, ◌||◌, ◌&&◌, arith, not}
use fluent_pvc_operator.Lifecycle.Flags.{Flags}

-- The flags of a binding that the webhook has just created.
abbrev pub no_flags : Flags
no_flags = record {
  ready = false;
  out_of_use = false;
  finalizer_job_applied = false;
  finalizer_job_succeeded = false;
  finalizer_job_failed = false;
  unknown = false;
  pod_missing = false;
}

-- Neither unknown nor finalized: the reconciler still follows the pod.
pub record IsOpen (f : Flags) : Type 0 where
  pub known : f.unknown ≡ false
  pub unfinished : f.finalizer_job_succeeded ≡ false

-- The claim is out of use, and its finalizer job is awaited.
pub record IsFinalizing (f : Flags) : Type 0 where
  pub open_binding : IsOpen f
  pub ready : f.ready ≡ true
  pub out_of_use : f.out_of_use ≡ true

pub data Step (f g : Flags) : Type 0 where
  becomes_unknown : f.unknown ≡ false → g ≡ record f { unknown = true } → Step f g
  becomes_ready : IsOpen f → f.ready ≡ false → g ≡ record f { ready = true } → Step f g
  misses_pod : IsOpen f → f.ready ≡ false → g ≡ record f { pod_missing = true } → Step f g
  goes_out_of_use :
      IsOpen f
      → f.ready ≡ true
      → f.out_of_use ≡ false
      → g ≡ record f { out_of_use = true }
      → Step f g
  loses_job :
      IsFinalizing f
      → g ≡ record f { finalizer_job_applied = false; finalizer_job_failed = false }
      → Step f g
  sees_job :
      (succeeded failed : Bool)
      → (succeeded && failed) ≡ false
      → IsFinalizing f
      → g ≡ record f {
        finalizer_job_applied = true;
        finalizer_job_succeeded = f.finalizer_job_succeeded || succeeded;
        finalizer_job_failed = f.finalizer_job_failed || failed;
      }
      → Step f g

-- The order of the conditions in a life.
pub record IsOrdered (f : Flags) : Type 0 where
  pub use_after_ready : (not f.out_of_use || f.ready) ≡ true
  pub applied_after_use : (not f.finalizer_job_applied || f.out_of_use) ≡ true
  pub failed_after_applied : (not f.finalizer_job_failed || f.finalizer_job_applied) ≡ true
  pub succeeded_after_applied : (not f.finalizer_job_succeeded || f.finalizer_job_applied) ≡ true

pub IsOrdered-no_flags : IsOrdered no_flags
IsOrdered-no_flags = ground arith

pub Step-IsOrdered : {f g : Flags} → Step f g → IsOrdered f → IsOrdered g
Step-IsOrdered (becomes_unknown k e) h = ground arith
Step-IsOrdered (becomes_ready o r e) h = ground arith
Step-IsOrdered (misses_pod o r e) h = ground arith
Step-IsOrdered (goes_out_of_use o r u e) h = ground arith
Step-IsOrdered (loses_job o e) h = ground arith
Step-IsOrdered (sees_job s d x o e) h = ground arith
