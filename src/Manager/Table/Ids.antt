-- ===== src/Manager/Table/Ids.antt =====
-- Identifiers: the generated one is the number after the greatest, and no container has it.
use mini_container.Prelude.{
  ℕ, ◌+◌, ◌≤◌, ◌<◌, ◌^◌, ◌≡◌, refl, ap, ◌∙◌, inl, inr, true, List, [], ◌∷◌, none, arith, ltb,
  if◌then◌else◌, Bool-cases, take_all, ℤ, pos, negsuc, ltℤ, int_of_long-pos,
}
use mini_container.Text.{Text, text_eq, text_eq_iff, snprintf, decimal}
use mini_container.Text.Decimal.{strtol-decimal, length-decimal-pos}
use mini_container.Config.{ContainerInfo}
use mini_container.Manager.Table.{
  extract_numeric_id, max_numeric_id, add_one_int, next_id, find_container,
}

below_int : (n : ℕ) → n < 2 ^ 31 → ltb n (2 ^ 31) ≡ true
below_int n h = ground arith

-- The number of a positive `int` printed by `%d` is that `int`.
pub extract_numeric_id-decimal :
    (n : ℕ) → 0 < n → n < 2 ^ 31 → extract_numeric_id (decimal (pos n)) ≡ pos n
unfolding extract_numeric_id
extract_numeric_id-decimal n h b =
    rw (strtol-decimal n (omega arith)) (ground (arith, int_of_long-pos n (below_int n b)))

-- One round of the loop.
max_step :
    (k : ℕ) (z : ℤ)
    → (j : ℕ) × ((if ltℤ (pos k) z then z else pos k) ≡ pos j)
      × (k ≤ j)
      × ((n : ℕ) → z ≡ pos n → n ≤ j)
max_step k (negsuc i) = (k, refl, omega arith, λ n e. cc)
max_step k (pos i) = elim (Bool-cases (ltb k i)) [
  | inl e ↦ (i, rw e, ground arith, λ n h. ground arith)
  | inr e ↦ (k, rw e, omega arith, λ n h. ground arith)
]

-- The loop returns a number that is not negative, and no container has an identifier above it.
max_numeric_id_bound :
    (k : ℕ) (cs : List ContainerInfo)
    → (m : ℕ) × (max_numeric_id (pos k) cs ≡ pos m)
      × (k ≤ m)
      × ((id : Text) (n : ℕ) → extract_numeric_id id ≡ pos n → m < n → find_container cs id ≡ none)
unfolding max_numeric_id find_container
max_numeric_id_bound k [] = (k, refl, omega arith, λ id n e h. refl)
max_numeric_id_bound k (c ∷ cs) =
    let (j, step, k_le, j_bound) = max_step k (extract_numeric_id c.id) in
    let (m, loop, j_le, fresh) = max_numeric_id_bound j cs in
    (
      m,
      rw step loop,
      omega arith,
      λ id n e h. elim (Bool-cases (text_eq c.id id)) [
        | inl same ↦
            absurd
              (omega (arith, j_bound n (ap extract_numeric_id ((text_eq_iff c.id id).0 same) ∙ e)))
        | inr other ↦ rw (other, fresh id n e h)
      ],
    )

next_id_lem :
    (cs : List ContainerInfo) (m : ℕ)
    → max_numeric_id (pos 0) cs ≡ pos m
    → m + 1 < 2 ^ 31
    → next_id cs ≡ decimal (pos (m + 1))
unfolding next_id snprintf
next_id_lem cs m e h =
    rw (e, add_one_int, int_of_long-pos (m + 1) (below_int (m + 1) h))
      (take_all 63 (decimal (pos (m + 1))) (omega (arith, length-decimal-pos (m + 1) h)))

-- A generated identifier is new to the table, as long as the greatest number in it is below the
-- greatest `int`.
pub find_container-next_id :
    (cs : List ContainerInfo) (m : ℕ)
    → max_numeric_id (pos 0) cs ≡ pos m
    → m + 1 < 2 ^ 31
    → find_container cs (next_id cs) ≡ none
find_container-next_id cs m e h =
    let (j, loop, _, fresh) = max_numeric_id_bound 0 cs in
    rw (next_id_lem cs m e h) (
      fresh (decimal (pos (m + 1))) (m + 1) (extract_numeric_id-decimal (m + 1) (omega arith) h)
        (ground arith))

-- The numbers of the table.
pub extract_numeric_id-next_id :
    (cs : List ContainerInfo) (m : ℕ)
    → max_numeric_id (pos 0) cs ≡ pos m
    → m + 1 < 2 ^ 31
    → extract_numeric_id (next_id cs) ≡ pos (m + 1)
extract_numeric_id-next_id cs m e h =
    rw (next_id_lem cs m e h) (extract_numeric_id-decimal (m + 1) (omega arith) h)
