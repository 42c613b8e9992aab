-- ===== src/Manager/Copying/Owned/Ends.antt =====
-- How `copy_container_config` of src/container_manager.cpp ends on the heap.
use mathlib.Core.Option.{some-injective}
use mini_container.Prelude.{
  ℕ, ◌+◌, ◌≡◌, ◌≤◌, refl, sym, ◌∙◌, ap, inl, inr, Bool, true, false, List, Option, none, some,
  arith, Bool-cases, continue, ◌>>=◌, is_some, Exec,
}
use mini_container.Text.{Text}
use mini_container.Kernel.{Kernel}
use mini_container.Manager.Copying.{copy_text, copy_entries}
use mini_container.Manager.Copying.Owned.{
  Pointer, Heap, Copy, Mem, count, free, strdup, discard, free_container_config, own_entries,
  end_entries, undo_entries, own_array,
}
use mini_container.Manager.Copying.Owned.Blocks.{
  one, has, owned, command_has, lost_of, entries_have, Holds, Returns, Returns-then, free_lem,
  free_container_config_lem,
}
use mini_container.Manager.Copying.Owned.Entries.{
  with_block, with_block-Holds, own_entries_lem, undo_entries_lem,
}
use mini_container.Manager.Copying.Owned.Faults.{discard-faults}

-- The three ends: a copy that has its blocks, a null pointer with every block given back, or
-- undefined behaviour. `given` says whether the texts are copied, `bare` whether all but those of
-- the command are.
pub data Ends (K : Kernel) (base : ℕ → ℕ) (given bare : Bool)
    (r : Option (Option Copy) × Heap K.World) : Type 0 where
  is_copied :
      (c : Copy)
      → given ≡ true
      → r.0 ≡ some (some c)
      → Holds (λ q. owned c q + base q) r.1
      → Ends K base given bare r
  is_refused :
      given ≡ false → bare ≡ false → r.0 ≡ some none → Holds base r.1 → Ends K base given bare r
  is_undefined : given ≡ false → bare ≡ true → r.0 ≡ none → Ends K base given bare r

-- No block has the number of the next one or a greater one.
abbrev pub IsFresh : {W : Type 0} → Heap W → Type 0
IsFresh h = (q : ℕ) → h.next ≤ q → count q h.blocks ≡ 0

module _ (K : Kernel) (base : ℕ → ℕ) where
  pub with_block-IsFresh : (h : Heap K.World) → IsFresh h → IsFresh (with_block K h)
  with_block-IsFresh h fresh q above = ground (arith, fresh q (omega arith))

  pub discard_lem :
      (c : Copy) (h : Heap K.World)
      → c.command ≡ none
      → Holds (λ q. owned c q + base q) h
      → Returns none base (discard K c h)
  unfolding discard lost_of
  discard_lem c h e holds =
      let (freed, left) = free_container_config_lem K c base h holds in
      Returns-then tt none (free_container_config K c h) _ (freed, left)
        λ h' k. (refl, λ q. omega (arith, k q, ap (λ command. lost_of command q) e))

  Ends-then :
      {A : Type 0} {f : ℕ → ℕ} (given bare : Bool) (a : A) (r : Option A × Heap K.World)
      (n : A → Mem K (Option Copy))
      → Returns a f r
      → ((h : Heap K.World) → Holds f h → Ends K base given bare (n a h))
      → Ends K base given bare (continue r n)
  Ends-then given bare a (none, h) n (e, holds) next = absurd (cc e)
  Ends-then given bare a (some x, h) n (e, holds) next = rw (some-injective x a e) (next h holds)

  Returns-faults :
      {A B : Type 0} {f : ℕ → ℕ} (a : A) (r : Option A × Heap K.World) (n : A → Mem K B)
      → Returns a f r
      → ((h : Heap K.World) → Holds f h → (n a h).0 ≡ none)
      → (continue r n).0 ≡ none
  Returns-faults a (none, h) n (e, holds) next = absurd (cc e)
  Returns-faults a (some x, h) n (e, holds) next = rw (some-injective x a e) (next h holds)

  -- The loop over the entries, at its end.
  end_entries_lem :
      (c : Copy) (array : ℕ) (ps : List Pointer) (all bare : Bool) (h : Heap K.World)
      → c.command ≡ none
      → owned c array + base array ≡ 0
      → bare ≡ true
      → Holds (λ q. entries_have ps q + (one array q + (owned c q + base q))) h
      → Ends K base all bare (end_entries K c array (ps, all) h)
  unfolding end_entries owned command_has
  end_entries_lem c array ps true bare h e new b holds =
      is_copied (record c { command = some (array, ps) }) refl refl
        λ q. omega (arith, holds q, ap (λ command. command_has command q) e)
  end_entries_lem c array ps false bare h e new b holds = is_undefined refl b (
      Returns-faults tt (undo_entries K ps h) _
        (undo_entries_lem K ps (λ q. one array q + (owned c q + base q)) h holds)
        λ h' k.
          Returns-faults tt (free K array h') _
            (free_lem K (λ q. one array q + (owned c q + base q)) (λ q. owned c q + base q) h' k
              array (λ q. refl))
            λ h'' k'. discard-faults K array c ps h'' (k' array ∙ new))

  module _ {X Y : Type 0} (m : Exec K.World X) (n : Exec K.World Y) (refuse : Mem K (Option Copy))
      (next : Pointer → Mem K (Option Copy)) (f : ℕ → ℕ)
      (refusing : (h : Heap K.World) → Holds f h → Returns none base (refuse h))
      (going : (p : Pointer) (h : Heap K.World)
        → IsFresh h
        → Holds (λ q. has p q + f q) h
        → Ends K base (is_some (m h.world).0) (is_some (n h.world).0) (next p h)) where
    -- A text is copied, or the copy is refused.
    pub strdup_lem :
        (t : Option Text) (h : Heap K.World)
        → IsFresh h
        → Holds f h
        → Ends K base
            (is_some ((copy_text K t >>= λ u. m) h.world).0)
            (is_some ((copy_text K t >>= λ u. n) h.world).0)
            ((strdup K t >>= λ r. elim r [ none ↦ refuse | some p ↦ next p ]) h)
    unfolding strdup copy_text
    strdup_lem none h fresh holds = going none h fresh (λ q. omega (arith, holds q))
    strdup_lem (some t) h fresh holds = elim (Bool-cases (K.alloc h.world).0) [
      | inl given ↦ rw given (
          going (some h.next) (with_block K h) (with_block-IsFresh h fresh)
            (with_block-Holds K f h holds))
      | inr refused ↦ rw refused (
          (let (e, back) = refusing (record h { world = (K.alloc h.world).1 }) holds in
            is_refused refl refl e back))
    ]

  pub own_array_lem :
      (ts : List (Option Text)) (c : Copy) (h : Heap K.World) (v b : Bool)
      → c.command ≡ none
      → IsFresh h
      → Holds (λ q. owned c q + base q) h
      → ((K.alloc h.world).0 ≡ false → (v ≡ false) × (b ≡ false))
      → ((K.alloc h.world).0 ≡ true
          → (v ≡ is_some (copy_entries K ts (K.alloc h.world).1).0) × (b ≡ true))
      → Ends K base v b (own_array K ts c h)
  unfolding own_array
  own_array_lem ts c h v b e fresh holds without with_memory =
      elim (Bool-cases (K.alloc h.world).0) [
        | inl given ↦
            let (texts, bare) = with_memory given in
            let f = λ (q : ℕ). one h.next q + (owned c q + base q) in
            let entries =
              own_entries_lem K ts f (with_block K h)
                (with_block-Holds K (λ q. owned c q + base q) h holds) in
            rw (given, texts, entries.agrees)
              (Ends-then entries.all b (entries.copied, entries.all)
                (own_entries K ts (with_block K h)) _ entries.returns
                λ h' k.
                  end_entries_lem c h.next entries.copied entries.all b h' e
                    (sym (holds h.next) ∙ fresh h.next (omega arith)) bare k)
        | inr refused ↦
            let (texts, bare) = without refused in
            let (ended, back) = discard_lem c (record h { world = (K.alloc h.world).1 }) e holds in
            rw refused (is_refused texts bare ended back)
      ]
