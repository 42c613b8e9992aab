-- ===== src/Manager/Copying/Owned/Blocks.antt =====
-- Blocks are counted: what freeing a block, a pointer or a whole configuration does to the heap.
use mathlib.Core.Option.{some-injective}
use mini_container.Prelude.{
  ℕ, ◌+◌, ◌≡◌, ◌<◌, refl, ◌∙◌, List, [], ◌∷◌, Option, none, some, arith, continue, Exec,
  if◌then◌else◌, ◌==◌,
}
use mini_container.Kernel.{Kernel}
use mini_container.Manager.Copying.Owned.{
  Pointer, Heap, Copy, count, remove, touch, free, free_pointer, free_entries, free_command,
  free_container_config,
}

abbrev pub one : ℕ → ℕ → ℕ
one p q = if q == p then 1 else 0

abbrev pub has : Pointer → ℕ → ℕ
has none q = 0
has (some p) q = one p q

-- How often a copy has a block.
unfoldable pub entries_have : List Pointer → ℕ → ℕ
entries_have [] q = 0
entries_have (p ∷ ps) q = has p q + entries_have ps q

unfoldable pub command_has : Option (ℕ × List Pointer) → ℕ → ℕ
unfolding entries_have
command_has none q = 0
command_has (some (array, ps)) q = one array q + entries_have ps q

unfoldable pub owned : Copy → ℕ → ℕ
unfolding command_has
owned c q =
    one c.self q + has c.id q + has c.root_path q + has c.fs_root q + command_has c.command q

-- The entries behind the first null.
unfoldable pub behind : List Pointer → ℕ → ℕ
unfolding entries_have
behind [] q = 0
behind (none ∷ ps) q = entries_have ps q
behind (some p ∷ ps) q = behind ps q

unfoldable pub lost_of : Option (ℕ × List Pointer) → ℕ → ℕ
unfolding behind
lost_of none q = 0
lost_of (some (array, ps)) q = behind ps q

abbrev pub lost : Copy → ℕ → ℕ
lost c = lost_of c.command

module _ {W : Type 0} where
  -- Each block is in use as often as the function says.
  abbrev pub Holds : (ℕ → ℕ) → Heap W → Type 0
  Holds f h = (q : ℕ) → count q h.blocks ≡ f q

  -- A value is returned, and the blocks are known.
  abbrev pub Returns : {A : Type 0} → A → (ℕ → ℕ) → Option A × Heap W → Type 0
  Returns a f r = (r.0 ≡ some a) × Holds f r.1

  pub Returns-then :
      {A B : Type 0} {f g : ℕ → ℕ} (a : A) (b : B) (r : Option A × Heap W) (n : A → Exec (Heap W) B)
      → Returns a f r
      → ((h : Heap W) → Holds f h → Returns b g (n a h))
      → Returns b g (continue r n)
  Returns-then a b (none, h) n (e, holds) next = absurd (cc e)
  Returns-then a b (some x, h) n (e, holds) next = rw (some-injective x a e) (next h holds)

count-remove :
    (q p : ℕ) (bs : List ℕ) → 0 < count p bs → count q bs ≡ one p q + count q (remove p bs)
count-remove q p [] h = absurd (omega arith)
count-remove q p (b ∷ bs) h = ground (arith, count-remove q p bs)

pub touch_lem :
    (K : Kernel) (f : ℕ → ℕ) (h : Heap K.World)
    → Holds f h
    → (p : ℕ) → 0 < f p
    → Returns tt f (touch K p h)
touch_lem K f h holds p here = (ground (arith, holds p), holds)

module _ (K : Kernel) (f g : ℕ → ℕ) (h : Heap K.World) (holds : Holds f h) where
  pub free_lem :
      (p : ℕ)
      → ((q : ℕ) → f q ≡ one p q + g q)
      → ((free K p h).0 ≡ some tt) × Holds g (free K p h).1
  free_lem p split = (
    ground (arith, holds p, split p),
    λ q. ground (arith, holds q, split q, holds p, split p, count-remove q p h.blocks),
  )

  pub free_pointer_lem :
      (p : Pointer)
      → ((q : ℕ) → f q ≡ has p q + g q)
      → ((free_pointer K p h).0 ≡ some tt) × Holds g (free_pointer K p h).1
  free_pointer_lem none split = (refl, λ q. omega (arith, holds q, split q))
  free_pointer_lem (some p) split = free_lem p split

  pub same_holds : ((q : ℕ) → f q ≡ g q) → Holds g h
  same_holds same q = holds q ∙ same q

module _ (K : Kernel) where
  free_entries_lem :
      (array : ℕ) (ps : List Pointer) (g : ℕ → ℕ) (h : Heap K.World)
      → Holds (λ q. one array q + (entries_have ps q + g q)) h
      → Returns tt (λ q. one array q + (behind ps q + g q)) (free_entries K array ps h)
  unfolding free_entries entries_have behind
  free_entries_lem array [] g h holds = (refl, holds)
  free_entries_lem array (none ∷ ps) g h holds =
      let f = λ (q : ℕ). one array q + (entries_have ps q + g q) in
      let known =
        same_holds K (λ q. one array q + (entries_have (none ∷ ps) q + g q)) f h holds
          (λ q. omega arith) in
      touch_lem K f h known array (ground arith)
  free_entries_lem array (some p ∷ ps) g h holds =
      let f = λ (q : ℕ). one array q + (entries_have ps q + g q) in
      let f' = λ (q : ℕ). one p q + f q in
      let known =
        same_holds K (λ q. one array q + (entries_have (some p ∷ ps) q + g q)) f' h holds
          (λ q. omega arith) in
      Returns-then tt tt (touch K array h) _ (touch_lem K f' h known array (ground arith)) λ h' k.
        Returns-then tt tt (free K p h') _ (free_lem K f' f h' k p (λ q. refl))
          λ h'' k'. free_entries_lem array ps g h'' k'

  free_command_lem :
      (command : Option (ℕ × List Pointer)) (g : ℕ → ℕ) (h : Heap K.World)
      → Holds (λ q. command_has command q + g q) h
      → Returns tt (λ q. lost_of command q + g q) (free_command K command h)
  unfolding free_command command_has lost_of
  free_command_lem none g h holds = (refl, holds)
  free_command_lem (some (array, ps)) g h holds =
      let f = λ (q : ℕ). one array q + (entries_have ps q + g q) in
      let f' = λ (q : ℕ). one array q + (behind ps q + g q) in
      let known =
        same_holds K (λ q. command_has (some (array, ps)) q + g q) f h holds (λ q. omega arith) in
      Returns-then tt tt (free_entries K array ps h) _ (free_entries_lem array ps g h known)
        λ h' k. free_lem K f' (λ q. behind ps q + g q) h' k array (λ q. refl)

  -- Freeing a configuration frees what it owns, but for the entries of its command behind a null.
  pub free_container_config_lem :
      (c : Copy) (base : ℕ → ℕ) (h : Heap K.World)
      → Holds (λ q. owned c q + base q) h
      → Returns tt (λ q. lost c q + base q) (free_container_config K c h)
  unfolding free_container_config owned
  free_container_config_lem c base h holds =
      let last = λ (q : ℕ). one c.self q + (lost c q + base q) in
      let f₄ = λ (q : ℕ). command_has c.command q + (one c.self q + base q) in
      let f₃ = λ (q : ℕ). has c.fs_root q + f₄ q in
      let f₂ = λ (q : ℕ). has c.root_path q + f₃ q in
      let f₁ = λ (q : ℕ). has c.id q + f₂ q in
      let known = same_holds K (λ q. owned c q + base q) f₁ h holds (λ q. omega arith) in
      Returns-then tt tt (touch K c.self h) _ (touch_lem K f₁ h known c.self (ground arith))
        λ h₁ k₁.
          Returns-then tt tt (free_pointer K c.id h₁) _
            (free_pointer_lem K f₁ f₂ h₁ k₁ c.id (λ q. refl))
            λ h₂ k₂.
              Returns-then tt tt (free_pointer K c.root_path h₂) _
                (free_pointer_lem K f₂ f₃ h₂ k₂ c.root_path (λ q. refl))
                λ h₃ k₃.
                  Returns-then tt tt (free_pointer K c.fs_root h₃) _
                    (free_pointer_lem K f₃ f₄ h₃ k₃ c.fs_root (λ q. refl))
                    λ h₄ k₄.
                      Returns-then tt tt (free_command K c.command h₄) _
                        (free_command_lem c.command (λ q. one c.self q + base q) h₄ k₄)
                        λ h₅ k₅.
                          free_lem K (λ q. lost c q + (one c.self q + base q))
                            (λ q. lost c q + base q) h₅ k₅ c.self (λ q. omega arith)
