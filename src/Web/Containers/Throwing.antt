-- ===== src/Web/Containers/Throwing.antt =====
-- The report of the containers where one of them has no quota.
use mathlib.Core.Path.{subst}
use mathlib.Core.Option.{some-injective}
use mini_container.Prelude.{
  ℕ, zero, suc, ◌≡◌, sym, if◌then◌else◌, ◌++◌, Bool, true, false, List, [], ◌∷◌, none, some, arith,
  get_elem?, ℤ,
}
use mini_container.Text.{Text, text, snprintf}
use mini_container.Kernel.{Kernel}
use mini_container.Config.{
  ContainerInfo, ContainerState, ContainerManager, cgroup_v2, is_running, is_destroyed,
}
use mini_container.Resource.Paths.{cgroup_root, group_name}
use mini_container.Resource.Stats.{resource_manager_get_stats}
use mini_container.Command.Listing.{active_containers}
use mini_container.Web.Quota.Written.{read_limits-throws}
use mini_container.Doubles.{Doubles}
use mini_container.Web.Containers.{
  Previous, running_object, container_object, container_objects, container_list_json,
}

module _ (F : Doubles) (K : Kernel) (m : ContainerManager) (behind : Bool) (now : ℤ)
    (c : ContainerInfo) (cs : List ContainerInfo) (s : Previous × K.World) where
  first-throws :
      (container_object F K m now c s).0 ≡ none
      → (container_objects F K m behind now (c ∷ cs) s).0 ≡ none
  unfolding container_objects
  first-throws h = ground (arith, h)

  rest-throws :
      ((t : Previous × K.World) → (container_objects F K m true now cs t).0 ≡ none)
      → (container_objects F K m behind now (c ∷ cs) s).0 ≡ none
  unfolding container_objects
  rest-throws h = let t = (container_object F K m now c s).1 in ground (arith, h t)

module _ (F : Doubles) (K : Kernel) (m : ContainerManager) (two : m.rm.version ≡ cgroup_v2)
    (info : ContainerInfo) (on : is_running info.state ≡ true) (period : Text)
    (file : (w : K.World)
      → (K.read_text (snprintf 1024 (group_name cgroup_root m.rm info.id (text "/cpu.max"))) w).0
        ≡ some (text "max " ++ period)) where
  container_object-throws :
      (now : ℤ) (s : Previous × K.World) → (container_object F K m now info s).0 ≡ none
  unfolding container_object running_object
  container_object-throws now (prev, w) =
      let w1 = (resource_manager_get_stats K m.rm info.id w).1 in
      ground (arith, on, read_limits-throws K m.rm info.id period w1 two (file w1))

  active_containers-running :
      (state : ContainerState)
      → is_running state ≡ true
      → (cs : List ContainerInfo)
      → (if is_destroyed state then active_containers cs else info ∷ active_containers cs)
        ≡ info ∷ active_containers cs
  active_containers-running state h cs = ground (arith, h)

  container_objects-throws :
      (behind : Bool) (now : ℤ) (cs : List ContainerInfo) (i : ℕ) (s : Previous × K.World)
      → get_elem? cs i ≡ some info
      → (container_objects F K m behind now (active_containers cs) s).0 ≡ none
  unfolding container_objects active_containers
  container_objects-throws behind now [] i s at = absurd (cc at)
  container_objects-throws behind now (c ∷ cs) zero s at =
      subst (λ d. (container_objects F K m behind now (active_containers (d ∷ cs)) s).0 ≡ none)
        (sym (some-injective c info at))
        (rw (active_containers-running info.state on cs) (
          first-throws F K m behind now info (active_containers cs) s
            (container_object-throws now s)))
  container_objects-throws behind now (c ∷ cs) (suc i) s at =
      let skipped = container_objects-throws behind now cs i s at in
      let rest =
        rest-throws F K m behind now c (active_containers cs) s
          λ t. container_objects-throws true now cs i t at in
      ground (arith, skipped, rest)

  -- Under cgroup v2, where a RUNNING container anywhere in the table has a `cpu.max` that holds
  -- "max" and a period whenever it is read, as it does for a group without a quota, the report of
  -- the containers ends with an exception, whatever else stands in the table.
  pub container_list_json-throws :
      (i : ℕ) (s : Previous × K.World)
      → get_elem? m.containers i ≡ some info
      → (container_list_json F K m s).0 ≡ none
  unfolding container_list_json
  container_list_json-throws i (prev, w) at =
      let thrown =
        container_objects-throws false (K.time w).0 m.containers i (prev, (K.time w).1) at in
      ground (arith, thrown)
