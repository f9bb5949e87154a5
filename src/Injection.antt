-- ===== src/Injection.antt =====
-- utils/pod/injection.go: adding a container, a volume, a mount or a variable to a pod's
-- specification, or replacing the one of that name. `DeepCopy` has no effect on values.
pub mod Lookup
pub mod Names
pub mod Variables
pub mod Specs
use fluent_pvc_operator.Prelude.{String, Bool, false, ◌||◌, List, [], ◌∷◌, map, ◌==◌, if◌then◌else◌}
use fluent_pvc_operator.Kube.{PodSpec, Container, Volume, VolumeMount, EnvVar}

module _ {ℓ} {A : Type ℓ} (name : A → String) (item : A) where
  -- The loop that three of the functions share, with the flag of what has been found.
  unfoldable pub replace_loop : Bool → List A → List A
  replace_loop found [] = if found then [] else item ∷ []
  replace_loop found (x ∷ xs) =
      let same = name x == name item in (if same then item else x) ∷ replace_loop (same || found) xs

  -- The loop of `InjectOrReplaceEnv`, which keeps the old element behind the new one.
  unfoldable pub insert_loop : Bool → List A → List A
  insert_loop found [] = if found then [] else item ∷ []
  insert_loop found (x ∷ xs) =
      let same = name x == name item in
      let rest = insert_loop (same || found) xs in if same then item ∷ x ∷ rest else x ∷ rest

unfoldable pub inject_or_replace_container : PodSpec → Container → PodSpec
unfolding replace_loop
inject_or_replace_container spec container = record spec {
  containers = replace_loop (λ (c : Container). c.name) container false spec.containers;
}

unfoldable pub inject_or_replace_volume : PodSpec → Volume → PodSpec
unfolding replace_loop
inject_or_replace_volume spec volume = record spec {
  volumes = replace_loop (λ (v : Volume). v.name) volume false spec.volumes;
}

-- one round of the outer loop
unfoldable pub mount_into : VolumeMount → Container → Container
unfolding replace_loop
mount_into mount c = record c {
  volume_mounts = replace_loop (λ (m : VolumeMount). m.name) mount false c.volume_mounts;
}

unfoldable pub inject_or_replace_volume_mount : PodSpec → VolumeMount → PodSpec
inject_or_replace_volume_mount spec mount = record spec {
  containers = map (mount_into mount) spec.containers;
}

-- one round of the outer loop
unfoldable pub env_into : EnvVar → Container → Container
unfolding insert_loop
env_into env c = record c { env = insert_loop (λ (e : EnvVar). e.name) env false c.env }

unfoldable pub inject_or_replace_env : PodSpec → EnvVar → PodSpec
inject_or_replace_env spec env = record spec { containers = map (env_into env) spec.containers }

-- The loops of the callers over the common volumes, mounts and variables.
unfoldable pub inject_volumes : PodSpec → List Volume → PodSpec
unfolding inject_or_replace_volume
inject_volumes spec [] = spec
inject_volumes spec (v ∷ vs) = inject_volumes (inject_or_replace_volume spec v) vs

unfoldable pub inject_volume_mounts : PodSpec → List VolumeMount → PodSpec
unfolding inject_or_replace_volume_mount
inject_volume_mounts spec [] = spec
inject_volume_mounts spec (m ∷ ms) = inject_volume_mounts (inject_or_replace_volume_mount spec m) ms

unfoldable pub inject_envs : PodSpec → List EnvVar → PodSpec
unfolding inject_or_replace_env
inject_envs spec [] = spec
inject_envs spec (e ∷ es) = inject_envs (inject_or_replace_env spec e) es
