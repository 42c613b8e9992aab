-- ===== src/Manager/Spec.antt =====
-- What the container manager promises: a finite map from identifiers to containers that changes by
-- the steps of a container's life. The position of an entry and the size of the array are
-- forgotten.
use mathlib.Core.Path.{subst}
use mini_container.Prelude.{
  ℕ, ◌≡◌, minus_one, sym, ◌≢◌, fun_ext, List, Option, none, some, if◌then◌else◌, get_elem?, ℤ,
}
use mini_container.Text.{Text, text_eq}
use mini_container.Kernel.{Kernel}
use mini_container.Config.{ContainerConfig, ContainerInfo, ContainerManager, running}
use mini_container.Manager.Table.{container_manager_get_info, remove_first}
use mini_container.Manager.Table.Lookup.{
  info_of, info_of-entry, PointsAt, container_manager_get_info-PointsAt,
}
use mini_container.Manager.Table.Updates.{info_of-remove_first, info_of-modify}
use mini_container.Manager.Lifecycle.Told.{IsTime, IsCloned}
use mini_container.Manager.Lifecycle.Creation.{fresh_entry}
use mini_container.Manager.Lifecycle.Starting.{started, halted, rewritten, IsStartable}
use mini_container.Manager.Validity.{IsValid}

abbrev pub View : Type 0
View = Text → Option ContainerInfo

abbrev pub view : ContainerManager → View
view m = info_of m.containers

-- The map with another value at an identifier.
abbrev pub put : View → Text → Option ContainerInfo → View
put v id o other = if text_eq id other then o else v other

-- The steps of a container's life. Each says from which state it goes, and what of the new entry
-- the system gave.
pub data Step (K : Kernel) (v w : View) : Type 0 where
  creates :
      (id : Text) (now : ℤ) (config : ContainerConfig)
      → v id ≡ none
      → IsTime K now
      → w ≡ put v id (some (fresh_entry id now config))
      → Step K v w
  starts :
      (c : ContainerInfo) (config : ContainerConfig) (pid now : ℤ)
      → v c.id ≡ some c
      → IsStartable c.state
      → c.saved_config ≡ some config
      → pid ≢ minus_one
      → IsCloned K config pid
      → IsTime K now
      → w ≡ put v c.id (some (started pid now c))
      → Step K v w
  stops :
      (c : ContainerInfo) (now : ℤ)
      → v c.id ≡ some c
      → c.state ≡ running
      → IsTime K now
      → w ≡ put v c.id (some (halted now c))
      → Step K v w
  removes :
      (c : ContainerInfo) → v c.id ≡ some c → c.state ≢ running → w ≡ put v c.id none → Step K v w

pub data Steps (K : Kernel) (v : View) : View → Type 0 where
  here : Steps K v v
  next : {u w : View} → Steps K v u → Step K u w → Steps K v w

pub Steps-trans : {K : Kernel} {u v w : View} → Steps K u v → Steps K v w → Steps K u w
Steps-trans a here = a
Steps-trans a (next b c) = next (Steps-trans a b) c

pub Steps-same : {K : Kernel} {m n : ContainerManager} → n ≡ m → Steps K (view m) (view n)
Steps-same {K} {m} e = subst (λ n. Steps K (view m) (view n)) (sym e) here

pub view-rewritten :
    (m : ContainerManager) (f : ContainerInfo → ContainerInfo) (i : ℕ) (c : ContainerInfo)
    → ((b : ContainerInfo) → (f b).id ≡ b.id)
    → get_elem? m.containers i ≡ some c
    → IsValid m
    → view (rewritten m i f) ≡ put (view m) c.id (some (f c))
view-rewritten m f i c keeps at v =
    fun_ext λ id. info_of-modify f keeps m.containers i c id at v.distinct

pub view-removed :
    (m : ContainerManager) (id : Text)
    → IsValid m
    → view (record m { containers = remove_first m.containers id }) ≡ put (view m) id none
view-removed m id v = fun_ext λ other. info_of-remove_first m.containers id other v.distinct

-- The entry that a pointer shows is the one that the map holds under its identifier.
pub view-found :
    (m : ContainerManager) (i : ℕ) (c : ContainerInfo)
    → get_elem? m.containers i ≡ some c
    → IsValid m
    → view m c.id ≡ some c
view-found m i c at v = info_of-entry m.containers i c at v.distinct

pub points :
    (cs : List ContainerInfo) (id : Text) (i : ℕ) (c : ContainerInfo)
    → container_manager_get_info cs id ≡ some (i, c)
    → get_elem? cs i ≡ some c
points cs id i c e = subst (PointsAt cs) e (container_manager_get_info-PointsAt cs id)
