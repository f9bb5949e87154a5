-- ===== src/Injection/Specs.antt =====
-- Whole pod specifications around the functions of utils/pod/injection.go.
use fluent_pvc_operator.Prelude.{
  String, ◌≡◌, refl, ◌∙◌, ap, some, List, [], ◌∷◌, map, eq_refl, arith, All,
}
use fluent_pvc_operator.Kube.{PodSpec, Container, Volume, VolumeMount, EnvVar}
use fluent_pvc_operator.Injection.{
  mount_into, env_into, inject_or_replace_volume, inject_or_replace_volume_mount,
  inject_or_replace_env, inject_volume_mounts, inject_envs, inject_volumes,
}
use fluent_pvc_operator.Injection.Lookup.{find, find-replace_loop}

abbrev pub volume_name : Volume → String
volume_name v = v.name

abbrev pub mount_name : VolumeMount → String
mount_name m = m.name

abbrev pub container_name : Container → String
container_name c = c.name

-- Every container mounts `m`, and nothing else under its name first.
abbrev pub HasMount : VolumeMount → Container → Type 0
HasMount m c = find mount_name m.name c.volume_mounts ≡ some m

abbrev pub IsMounted : VolumeMount → PodSpec → Type 0
IsMounted m spec = All (HasMount m) spec.containers

abbrev pub HasVolume : Volume → PodSpec → Type 0
HasVolume v spec = find volume_name v.name spec.volumes ≡ some v

pub inject_or_replace_volume-HasVolume :
    (spec : PodSpec) (v : Volume) → HasVolume v (inject_or_replace_volume spec v)
unfolding inject_or_replace_volume
inject_or_replace_volume-HasVolume spec v =
    ground (arith, find-replace_loop volume_name v v.name spec.volumes, eq_refl v.name)

pub volumes-inject_volume_mounts :
    (spec : PodSpec) (ms : List VolumeMount) → (inject_volume_mounts spec ms).volumes ≡ spec.volumes
unfolding inject_volume_mounts
volumes-inject_volume_mounts spec [] = refl
volumes-inject_volume_mounts spec (m ∷ ms) =
    volumes-inject_volume_mounts (inject_or_replace_volume_mount spec m) ms

pub volumes-inject_envs :
    (spec : PodSpec) (es : List EnvVar) → (inject_envs spec es).volumes ≡ spec.volumes
unfolding inject_envs
volumes-inject_envs spec [] = refl
volumes-inject_envs spec (e ∷ es) = volumes-inject_envs (inject_or_replace_env spec e) es

map-mount_into-IsMounted :
    (m : VolumeMount) (cs : List Container) → All (HasMount m) (map (mount_into m) cs)
unfolding mount_into
map-mount_into-IsMounted m [] = tt
map-mount_into-IsMounted m (c ∷ cs) = (
  ground (arith, find-replace_loop mount_name m m.name c.volume_mounts, eq_refl m.name),
  map-mount_into-IsMounted m cs,
)

pub inject_or_replace_volume_mount-IsMounted :
    (spec : PodSpec) (m : VolumeMount) → IsMounted m (inject_or_replace_volume_mount spec m)
unfolding inject_or_replace_volume_mount
inject_or_replace_volume_mount-IsMounted spec m = map-mount_into-IsMounted m spec.containers

map-env_into-IsMounted :
    (m : VolumeMount) (e : EnvVar) (cs : List Container)
    → All (HasMount m) cs
    → All (HasMount m) (map (env_into e) cs)
unfolding env_into
map-env_into-IsMounted m e [] h = tt
map-env_into-IsMounted m e (c ∷ cs) h = (h.0, map-env_into-IsMounted m e cs h.1)

pub inject_envs-IsMounted :
    (m : VolumeMount) (spec : PodSpec) (es : List EnvVar)
    → IsMounted m spec
    → IsMounted m (inject_envs spec es)
unfolding inject_envs
inject_envs-IsMounted m spec [] h = h
inject_envs-IsMounted m spec (e ∷ es) h =
    inject_envs-IsMounted m (inject_or_replace_env spec e) es
      (unfold inject_or_replace_env in map-env_into-IsMounted m e spec.containers h)

-- The names of the containers, which only `InjectOrReplaceContainer` may change.
abbrev pub names_of : PodSpec → List String
names_of spec = map container_name spec.containers

names-map-mount_into :
    (m : VolumeMount) (cs : List Container)
    → map container_name (map (mount_into m) cs) ≡ map container_name cs
unfolding mount_into
names-map-mount_into m [] = refl
names-map-mount_into m (c ∷ cs) = ap (λ t. c.name ∷ t) (names-map-mount_into m cs)

names-map-env_into :
    (e : EnvVar) (cs : List Container)
    → map container_name (map (env_into e) cs) ≡ map container_name cs
unfolding env_into
names-map-env_into e [] = refl
names-map-env_into e (c ∷ cs) = ap (λ t. c.name ∷ t) (names-map-env_into e cs)

pub names-inject_or_replace_volume_mount :
    (spec : PodSpec) (m : VolumeMount)
    → names_of (inject_or_replace_volume_mount spec m) ≡ names_of spec
unfolding inject_or_replace_volume_mount
names-inject_or_replace_volume_mount spec m = names-map-mount_into m spec.containers

pub names-inject_volume_mounts :
    (spec : PodSpec) (ms : List VolumeMount)
    → names_of (inject_volume_mounts spec ms) ≡ names_of spec
unfolding inject_volume_mounts
names-inject_volume_mounts spec [] = refl
names-inject_volume_mounts spec (m ∷ ms) =
    names-inject_volume_mounts (inject_or_replace_volume_mount spec m) ms
    ∙ names-inject_or_replace_volume_mount spec m

pub names-inject_envs :
    (spec : PodSpec) (es : List EnvVar) → names_of (inject_envs spec es) ≡ names_of spec
unfolding inject_envs
names-inject_envs spec [] = refl
names-inject_envs spec (e ∷ es) =
    names-inject_envs (inject_or_replace_env spec e) es
    ∙ (unfold inject_or_replace_env in names-map-env_into e spec.containers)

pub names-inject_volumes :
    (spec : PodSpec) (vs : List Volume) → names_of (inject_volumes spec vs) ≡ names_of spec
unfolding inject_volumes
names-inject_volumes spec [] = refl
names-inject_volumes spec (v ∷ vs) = names-inject_volumes (inject_or_replace_volume spec v) vs

-- The last part of both callers: the common mounts, the mount of the claim, the variables.
module _ (spec : PodSpec) (ms : List VolumeMount) (m : VolumeMount) (es : List EnvVar) where
  abbrev pub mounted_spec : PodSpec
  mounted_spec = inject_or_replace_volume_mount (inject_volume_mounts spec ms) m

  abbrev pub equipped_spec : PodSpec
  equipped_spec = inject_envs mounted_spec es

  volumes-mounted_lem : mounted_spec.volumes ≡ spec.volumes
  unfolding inject_or_replace_volume_mount
  volumes-mounted_lem = volumes-inject_volume_mounts spec ms

  pub volumes-equipped_lem : equipped_spec.volumes ≡ spec.volumes
  volumes-equipped_lem = volumes-inject_envs mounted_spec es ∙ volumes-mounted_lem

  pub equipped_spec-HasVolume : (v : Volume) → HasVolume v spec → HasVolume v equipped_spec
  equipped_spec-HasVolume v h = rw volumes-equipped_lem h

  pub equipped_spec-IsMounted : IsMounted m equipped_spec
  equipped_spec-IsMounted =
      inject_envs-IsMounted m mounted_spec es
        (inject_or_replace_volume_mount-IsMounted (inject_volume_mounts spec ms) m)

  pub names-equipped_spec : names_of equipped_spec ≡ names_of spec
  names-equipped_spec =
      names-inject_envs mounted_spec es
      ∙ names-inject_or_replace_volume_mount (inject_volume_mounts spec ms) m
      ∙ names-inject_volume_mounts spec ms

pub names-inject_or_replace_volume :
    (spec : PodSpec) (v : Volume) → names_of (inject_or_replace_volume spec v) ≡ names_of spec
unfolding inject_or_replace_volume
names-inject_or_replace_volume spec v = refl

pub containers-inject_volumes :
    (spec : PodSpec) (vs : List Volume) → (inject_volumes spec vs).containers ≡ spec.containers
unfolding inject_volumes
containers-inject_volumes spec [] = refl
containers-inject_volumes spec (v ∷ vs) =
    containers-inject_volumes (inject_or_replace_volume spec v) vs

abbrev pub env_name : EnvVar → String
env_name e = e.name
