-- ===== src/Manager/Validity.antt =====
-- The invariant of the table and the table as a map: what each operation does to them.
use mini_container.Prelude.{
  ℕ, ◌≤◌, ◌<◌, ◌≡◌, refl, sym, inl, inr, List, [], ◌∷◌, Option, none, some, Option-cases, arith,
  length, length-append, length-modify,
}
use mathlib.Core.Path.{subst}
use mini_container.Text.{Text}
use mini_container.Kernel.{Kernel}
use mini_container.Config.{ContainerConfig, ContainerInfo, ContainerManager}
use mini_container.Manager.Table.{Sys, find_container, remove_first}
use mini_container.Manager.Table.Lookup.{info_of, DistinctIds, find_container-info_of}
use mini_container.Manager.Table.Updates.{
  DistinctIds-append, DistinctIds-remove_first, length-remove_first, DistinctIds-modify,
}
use mini_container.Manager.Lifecycle.{
  Fuel, container_manager_create, container_manager_start, container_manager_stop,
  container_manager_destroy,
}
use mini_container.Manager.Lifecycle.Frame.{added}
use mini_container.Manager.Lifecycle.Creation.{Creates, chosen_id, container_manager_create-Creates}
use mini_container.Manager.Lifecycle.Starting.{
  started, halted, rewritten, found_by, Starts, container_manager_start-Starts,
}
use mini_container.Manager.Lifecycle.Stopping.{Halts, stop-Halts, destroy_found, destroy_missing}

-- Identifiers are distinct, and the entries fit the array, which has room for one at least.
pub record IsValid (m : ContainerManager) : Type 0 where
  pub distinct : DistinctIds m.containers
  pub fits : length m.containers ≤ m.max_containers
  pub room : 0 < m.max_containers

pub find-none→info_of :
    (cs : List ContainerInfo) (id : Text) → find_container cs id ≡ none → info_of cs id ≡ none
find-none→info_of cs id e = ground (arith, find_container-info_of cs id)

added-IsValid :
    (m : ContainerManager) (info : ContainerInfo)
    → find_container m.containers info.id ≡ none
    → IsValid m
    → IsValid (added m info)
added-IsValid m info new v = record {
  distinct = DistinctIds-append m.containers info (find-none→info_of _ _ new) v.distinct;
  fits = ground (arith, length-append m.containers (info ∷ []));
  room = ground arith;
}

pub rewritten-IsValid :
    (m : ContainerManager) (i : ℕ) (f : ContainerInfo → ContainerInfo)
    → ((c : ContainerInfo) → (f c).id ≡ c.id)
    → IsValid m
    → IsValid (rewritten m i f)
rewritten-IsValid m i f keeps v = record {
  distinct = DistinctIds-modify f keeps m.containers i v.distinct;
  fits = omega (arith, length-modify f m.containers i);
  room = v.room;
}

removed-IsValid :
    (m : ContainerManager) (id : Text)
    → IsValid m
    → IsValid (record m { containers = remove_first m.containers id })
removed-IsValid m id v = record {
  distinct = DistinctIds-remove_first m.containers id v.distinct;
  fits = omega (arith, length-remove_first m.containers id);
  room = v.room;
}

pub Halts-IsValid : {m n : ContainerManager} → Halts m n → IsValid m → IsValid n
Halts-IsValid (inl e) v = subst IsValid (sym e) v
Halts-IsValid {m} (inr (i, now, e)) v =
    subst IsValid (sym e) (rewritten-IsValid m i (halted now) (λ c. refl) v)

module _ (K : Kernel) (fuel : Fuel) where
  pub create-IsValid :
      (o : Option ContainerConfig) (s : Sys K)
      → IsValid s.manager
      → IsValid (container_manager_create K fuel o s).1.manager
  unfolding container_manager_create
  create-IsValid none s v = v
  create-IsValid (some config) s v =
      from (container_manager_create K fuel (some config) s)
        (container_manager_create-Creates K fuel config s)
    where
      from :
          (r : Option (Unit {0}) × Sys K)
          → Creates K fuel config s (chosen_id K fuel config config.id s) r
          → IsValid r.1.manager
      from r (inl (n, e)) = subst IsValid (sym e) v
      from r (inr (now, told, ok, e, new)) = subst IsValid (sym e) (added-IsValid _ _ new v)

  pub start-IsValid :
      (id : Text) (s : Sys K)
      → IsValid s.manager
      → IsValid (container_manager_start K fuel id s).1.manager
  start-IsValid id s v =
      from (container_manager_start K fuel id s) (container_manager_start-Starts K fuel s id)
    where
      from : (r : Option (Unit {0}) × Sys K) → Starts K fuel s id r → IsValid r.1.manager
      from r (inl (n, e)) = subst IsValid (sym e) v
      from r (inr (i, c, config, pid, now, found, st, saved, made, told, live, ok, e)) =
          subst IsValid (sym e) (rewritten-IsValid _ i (started pid now) (λ c. refl) v)

  pub stop-IsValid :
      (id : Text) (s : Sys K)
      → IsValid s.manager
      → IsValid (container_manager_stop K fuel id s).1.manager
  stop-IsValid id s v = Halts-IsValid (stop-Halts K fuel s id) v

  pub destroy-IsValid :
      (id : Text) (s : Sys K)
      → IsValid s.manager
      → IsValid (container_manager_destroy K fuel id s).1.manager
  destroy-IsValid id s v = elim (Option-cases (found_by K fuel s id)) [
    | inl missing ↦ rw (destroy_missing K fuel s id missing) v
    | inr ((i, c), found) ↦
        let (m, halts, ok, e) = destroy_found K fuel s id i c found in
        subst IsValid (sym e) (removed-IsValid m id (Halts-IsValid halts v))
  ]
