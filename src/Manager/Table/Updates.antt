-- ===== src/Manager/Table/Updates.antt =====
-- What the writes of the table do to it as a finite map: adding, removing and changing an entry.
use mathlib.Core.Path.{subst}
use mathlib.Core.Option.{some-injective}
use mini_container.Prelude.{
  ℕ, zero, suc, ◌≤◌, ◌≡◌, refl, ap, ◌∙◌, inl, inr, List, [], ◌∷◌, ◌++◌, none, some, arith,
  if◌then◌else◌, Bool-cases, length, get_elem?, modify,
}
use mini_container.Text.{Text, text_eq, text_eq_iff}
use mini_container.Config.{ContainerInfo}
use mini_container.Manager.Table.{remove_first}
use mini_container.Manager.Table.Lookup.{info_of, DistinctIds, info_of_entry}

pub info_of-append :
    (cs : List ContainerInfo) (info : ContainerInfo) (id : Text)
    → info_of cs info.id ≡ none
    → info_of (cs ++ (info ∷ [])) id ≡ (if text_eq info.id id then some info else info_of cs id)
unfolding info_of
info_of-append [] info id h = refl
info_of-append (c ∷ cs) info id h = ground (
  arith,
  info_of-append cs info id,
  text_eq_iff c.id id,
  text_eq_iff c.id info.id,
  text_eq_iff info.id id,
)

pub DistinctIds-append :
    (cs : List ContainerInfo) (info : ContainerInfo)
    → info_of cs info.id ≡ none
    → DistinctIds cs
    → DistinctIds (cs ++ (info ∷ []))
unfolding info_of
DistinctIds-append [] info h d = (refl, tt)
DistinctIds-append (c ∷ cs) info h d = (
  ground (arith, info_of-append cs info c.id, text_eq_iff c.id info.id, text_eq_iff info.id c.id),
  DistinctIds-append cs info (ground arith) d.1,
)

pub info_of-remove_first :
    (cs : List ContainerInfo) (id other : Text)
    → DistinctIds cs
    → info_of (remove_first cs id) other ≡ (if text_eq id other then none else info_of cs other)
unfolding info_of remove_first
info_of-remove_first [] id other d = ground arith
info_of-remove_first (c ∷ cs) id other d = ground (
  arith,
  info_of-remove_first cs id other d.1,
  text_eq_iff c.id id,
  text_eq_iff id other,
  text_eq_iff c.id other,
)

pub DistinctIds-remove_first :
    (cs : List ContainerInfo) (id : Text) → DistinctIds cs → DistinctIds (remove_first cs id)
unfolding remove_first
DistinctIds-remove_first [] id d = tt
DistinctIds-remove_first (c ∷ cs) id d =
    ground (arith, info_of-remove_first cs id c.id d.1, DistinctIds-remove_first cs id d.1)

pub length-remove_first :
    (cs : List ContainerInfo) (id : Text) → length (remove_first cs id) ≤ length cs
unfolding remove_first
length-remove_first [] id = omega arith
length-remove_first (c ∷ cs) id = ground (arith, length-remove_first cs id)

module _ (f : ContainerInfo → ContainerInfo) (keeps : (c : ContainerInfo) → (f c).id ≡ c.id) where
  info_of_head :
      (b : ContainerInfo) (cs : List ContainerInfo) (id : Text)
      → info_of (f b ∷ cs) id ≡ (if text_eq b.id id then some (f b) else info_of (b ∷ cs) id)
  unfolding info_of
  info_of_head b cs id = elim (Bool-cases (text_eq b.id id)) [
    | inl e ↦ rw (ap (λ x. text_eq x id) (keeps b) ∙ e, e)
    | inr e ↦ rw (ap (λ x. text_eq x id) (keeps b) ∙ e, e)
  ]

  -- A write through a pointer that keeps the identifier is an update of the map.
  pub info_of-modify :
      (cs : List ContainerInfo) (i : ℕ) (c : ContainerInfo) (id : Text)
      → get_elem? cs i ≡ some c
      → DistinctIds cs
      → info_of (modify f cs i) id ≡ (if text_eq c.id id then some (f c) else info_of cs id)
  unfolding info_of
  info_of-modify [] i c id e d = cc
  info_of-modify (b ∷ cs) zero c id e d =
      subst
        (λ x. info_of (f b ∷ cs) id ≡ (if text_eq x.id id then some (f x) else info_of (b ∷ cs) id))
        (some-injective b c e) (info_of_head b cs id)
  info_of-modify (b ∷ cs) (suc i) c id e d = ground (
    arith,
    info_of-modify cs i c id e d.1,
    text_eq_iff b.id id,
    text_eq_iff c.id id,
    info_of_entry cs i c e,
  )

  info_of-modify-none :
      (cs : List ContainerInfo) (i : ℕ) (id : Text)
      → info_of cs id ≡ none
      → info_of (modify f cs i) id ≡ none
  unfolding info_of
  info_of-modify-none [] i id h = refl
  info_of-modify-none (b ∷ cs) zero id h = rw (keeps b) (ground arith)
  info_of-modify-none (b ∷ cs) (suc i) id h = ground (arith, info_of-modify-none cs i id)

  -- Nor does such a write remove an identifier.
  pub none-info_of-modify :
      (cs : List ContainerInfo) (i : ℕ) (id : Text)
      → info_of (modify f cs i) id ≡ none
      → info_of cs id ≡ none
  unfolding info_of
  none-info_of-modify [] i id h = h
  none-info_of-modify (b ∷ cs) zero id h = ground (arith, ap (λ x. text_eq x id) (keeps b))
  none-info_of-modify (b ∷ cs) (suc i) id h = ground (arith, none-info_of-modify cs i id)

  pub DistinctIds-modify :
      (cs : List ContainerInfo) (i : ℕ) → DistinctIds cs → DistinctIds (modify f cs i)
  DistinctIds-modify [] i d = tt
  DistinctIds-modify (b ∷ cs) zero d = (rw (keeps b) d.0, d.1)
  DistinctIds-modify (b ∷ cs) (suc i) d =
      (info_of-modify-none cs i b.id d.0, DistinctIds-modify cs i d.1)
