-- ===== src/Manager/Table/Lookup.antt =====
-- The table as a finite map from identifiers to containers.
use mini_container.Prelude.{
  ℕ, zero, suc, ◌≡◌, refl, ◌≢◌, ◌⊎◌, inl, inr, List, [], ◌∷◌, Option, none, some, arith,
  if◌then◌else◌, Bool-cases, get_elem?, ℤ, eqℤ, int_of_long,
}
use mini_container.Text.{Text, text_eq, text_eq_iff, strtol}
use mini_container.Config.{ContainerInfo}
use mini_container.Manager.Table.{
  Found, shift, find_container, find_container_by_pid, container_manager_get_info,
}

-- The abstract view: what the table holds under an identifier.
unfoldable pub info_of : List ContainerInfo → Text → Option ContainerInfo
info_of [] id = none
info_of (c ∷ cs) id = if text_eq c.id id then some c else info_of cs id

-- No two containers have one identifier.
abbrev pub DistinctIds : List ContainerInfo → Type 0
DistinctIds [] = Unit {0}
DistinctIds (c ∷ cs) = (info_of cs c.id ≡ none) × DistinctIds cs

-- A pointer that a lookup returns points at an entry of the table.
abbrev pub PointsAt : List ContainerInfo → Found → Type 0
PointsAt cs none = Unit {0}
PointsAt cs (some (i, c)) = get_elem? cs i ≡ some c

PointsAt-shift :
    (c : ContainerInfo) (cs : List ContainerInfo) (r : Found)
    → PointsAt cs r
    → PointsAt (c ∷ cs) (shift r)
PointsAt-shift c cs none h = tt
PointsAt-shift c cs (some (i, d)) h = h

find_container-PointsAt : (cs : List ContainerInfo) (id : Text) → PointsAt cs (find_container cs id)
unfolding find_container
find_container-PointsAt [] id = tt
find_container-PointsAt (c ∷ cs) id = elim (Bool-cases (text_eq c.id id)) [
  | inl e ↦ rw e refl
  | inr e ↦ rw e (PointsAt-shift c cs (find_container cs id) (find_container-PointsAt cs id))
]

find_container_by_pid-PointsAt :
    (cs : List ContainerInfo) (pid : ℤ) → PointsAt cs (find_container_by_pid cs pid)
unfolding find_container_by_pid
find_container_by_pid-PointsAt [] pid = tt
find_container_by_pid-PointsAt (c ∷ cs) pid = elim (Bool-cases (eqℤ c.pid pid)) [
  | inl e ↦ rw e refl
  | inr e ↦
      rw e
        (PointsAt-shift c cs (find_container_by_pid cs pid) (find_container_by_pid-PointsAt cs pid))
]

-- The first container with the identifier is found, or there is none.
pub find_container-info_of :
    (cs : List ContainerInfo) (id : Text)
    → ((find_container cs id ≡ none) × (info_of cs id ≡ none))
      ⊎ ((i : ℕ) × (c : ContainerInfo) × (find_container cs id ≡ some (i, c))
          × (info_of cs id ≡ some c)
          × (c.id ≡ id)
          × (get_elem? cs i ≡ some c))
unfolding find_container info_of
find_container-info_of [] id = inl (refl, refl)
find_container-info_of (c ∷ cs) id = elim (Bool-cases (text_eq c.id id)) [
  | inl e ↦ inr (0, c, rw e, rw e, (text_eq_iff c.id id).0 e, refl)
  | inr e ↦ elim (find_container-info_of cs id) [
    | inl (p, q) ↦ inl (rw (e, p), rw (e, q))
    | inr (i, d, p, q, r, s) ↦ inr (suc i, d, rw (e, p), rw (e, q), r, s)
  ]
]

-- An entry's identifier is in the table.
pub info_of_entry :
    (cs : List ContainerInfo) (i : ℕ) (c : ContainerInfo)
    → get_elem? cs i ≡ some c
    → info_of cs c.id ≢ none
unfolding info_of
info_of_entry [] i c e = cc
info_of_entry (b ∷ cs) zero c e = ground (arith, text_eq_iff b.id c.id)
info_of_entry (b ∷ cs) (suc i) c e = ground (arith, info_of_entry cs i c e)

-- With distinct identifiers every entry is the first with its own.
pub info_of-entry :
    (cs : List ContainerInfo) (i : ℕ) (c : ContainerInfo)
    → get_elem? cs i ≡ some c
    → DistinctIds cs
    → info_of cs c.id ≡ some c
unfolding info_of
info_of-entry [] i c e d = cc
info_of-entry (b ∷ cs) zero c e d = ground (arith, text_eq_iff b.id c.id)
info_of-entry (b ∷ cs) (suc i) c e d =
    ground (arith, info_of-entry cs i c e d.1, text_eq_iff b.id c.id)

-- The lookup of the operations: by identifier, and by process only where no identifier fits.
pub container_manager_get_info-PointsAt :
    (cs : List ContainerInfo) (id : Text) → PointsAt cs (container_manager_get_info cs id)
unfolding container_manager_get_info
container_manager_get_info-PointsAt cs id = ground (
  arith,
  find_container-PointsAt cs id,
  find_container_by_pid-PointsAt cs (int_of_long (strtol id).0),
)

-- Where identifiers are distinct, the lookup by the identifier of an entry finds that entry.
find_container-entry :
    (cs : List ContainerInfo) (i : ℕ) (c : ContainerInfo)
    → DistinctIds cs
    → get_elem? cs i ≡ some c
    → find_container cs c.id ≡ some (i, c)
unfolding find_container
find_container-entry [] i c d e = cc
find_container-entry (b ∷ cs) zero c d e = ground (arith, text_eq_iff b.id c.id)
find_container-entry (b ∷ cs) (suc i) c d e =
    ground
      (arith, find_container-entry cs i c d.1, info_of-entry cs i c e d.1, text_eq_iff b.id c.id)

pub get_info-entry :
    (cs : List ContainerInfo) (i : ℕ) (c : ContainerInfo)
    → DistinctIds cs
    → get_elem? cs i ≡ some c
    → container_manager_get_info cs c.id ≡ some (i, c)
unfolding container_manager_get_info
get_info-entry cs i c d e = ground (arith, find_container-entry cs i c d e)
