-- ===== src/Controllers/Claims/Mutating.antt =====
-- What the mutate function of controllers/pvc_controller.go makes of a job.
use fluent_pvc_operator.Prelude.{◌≡◌, refl, some}
use fluent_pvc_operator.Kube.{Library, LibraryLaws, ObjectMeta, PersistentVolumeClaim, Job, ok}
use fluent_pvc_operator.Api.{FluentPvc, FluentPvcBinding}
use fluent_pvc_operator.Injection.Specs.{HasVolume, IsMounted, names_of}
use fluent_pvc_operator.Controllers.Claims.Finalizing.{
  claim_volume, claim_mount, finalizer_pod_spec_lem,
}
use fluent_pvc_operator.Controllers.Claims.{mutate_job, finalizer_pod_spec}

-- The job is controlled by the binding, and its pods are those of the template of the FluentPVC
-- with the claim as a volume that every container mounts.
pub record IsFinalizerJob (l : Library) (b : FluentPvcBinding) (pvc : PersistentVolumeClaim)
    (fpvc : FluentPvc) (j : Job) : Type 0 where
  pub controlled :
      l.get_controller_of j.meta
      ≡ some (record {
        api_version = l.api_version_of "FluentPVCBinding";
        kind = "FluentPVCBinding";
        name = b.meta.name;
        uid = b.meta.uid;
        controller = some "true";
      })
  pub has_claim : HasVolume (claim_volume fpvc pvc.meta.name) j.spec.template
  pub mounts_claim : IsMounted (claim_mount fpvc) j.spec.template
  pub containers :
      names_of j.spec.template ≡ names_of fpvc.spec.pvc_finalizer_job_spec_template.template
  pub other : j.spec.other ≡ fpvc.spec.pvc_finalizer_job_spec_template.other

module _ (l : Library) where
  abbrev pub finalizer_job :
      FluentPvcBinding → PersistentVolumeClaim → FluentPvc → Job → ObjectMeta → Job
  finalizer_job b pvc fpvc found m = record {
    meta = m;
    spec = record (fpvc.spec.pvc_finalizer_job_spec_template) {
      template =
          finalizer_pod_spec fpvc pvc.meta.name fpvc.spec.pvc_finalizer_job_spec_template.template;
    };
    conditions = found.conditions;
  }

  pub mutate_job-ok :
      (b : FluentPvcBinding) (pvc : PersistentVolumeClaim) (fpvc : FluentPvc) (found : Job)
      (m : ObjectMeta)
      → l.set_controller_reference "FluentPVCBinding" b.meta found.meta ≡ ok m
      → mutate_job l b fpvc pvc found ≡ ok (finalizer_job b pvc fpvc found m)
  unfolding mutate_job
  mutate_job-ok b pvc fpvc found m owned = rw owned

  pub finalizer_job-IsFinalizerJob :
      LibraryLaws l
      → (b : FluentPvcBinding) (pvc : PersistentVolumeClaim) (fpvc : FluentPvc) (found : Job)
        (m : ObjectMeta)
      → l.set_controller_reference "FluentPVCBinding" b.meta found.meta ≡ ok m
      → IsFinalizerJob l b pvc fpvc (finalizer_job b pvc fpvc found m)
  finalizer_job-IsFinalizerJob laws b pvc fpvc found m owned =
      let (volume, mounted, names) =
        finalizer_pod_spec_lem fpvc pvc.meta.name
          fpvc.spec.pvc_finalizer_job_spec_template.template in
      record {
        controlled = laws.controller-set_controller "FluentPVCBinding" b.meta found.meta m owned;
        has_claim = volume;
        mounts_claim = mounted;
        containers = names;
        other = refl;
      }
