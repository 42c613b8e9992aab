-- ===== src/Manager/Copying/Owned/Entries.antt =====
-- The entries of a command: how copying them ends, and what is undone where one is refused.
use mini_container.Prelude.{
  ℕ, ◌+◌, ◌≡◌, refl, ◌∙◌, inl, inr, Bool, true, false, List, [], ◌∷◌, Option, none, some, arith,
  Bool-cases, continue, pure, is_some,
}
use mini_container.Text.{Text}
use mini_container.Kernel.{Kernel}
use mini_container.Manager.Copying.{copy_text, copy_entries}
use mini_container.Manager.Copying.Owned.{
  Pointer, Heap, own_entries, strdup, undo_entries, free_pointer,
}
use mini_container.Manager.Copying.Owned.Blocks.{
  one, entries_have, Holds, Returns, Returns-then, free_pointer_lem,
}

pub is_some-continue :
    {S A B : Type 0} (r : Option A × S) (g : A → B)
    → is_some (continue r (λ a. pure (g a))).0 ≡ is_some r.0
is_some-continue (none, s) g = refl
is_some-continue (some a, s) g = refl

module _ (K : Kernel) where
  -- A new block.
  abbrev pub with_block : Heap K.World → Heap K.World
  with_block h = record {
    world = (K.alloc h.world).1;
    blocks = h.next ∷ h.blocks;
    next = h.next + 1;
  }

  pub with_block-Holds :
      (f : ℕ → ℕ) (h : Heap K.World) → Holds f h → Holds (λ q. one h.next q + f q) (with_block h)
  with_block-Holds f h holds q = ground (arith, holds q)

  pub record Entries (ts : List (Option Text)) (f : ℕ → ℕ) (h : Heap K.World) : Type 0 where
    pub copied : List Pointer
    pub all : Bool
    pub returns : Returns (copied, all) (λ q. entries_have copied q + f q) (own_entries K ts h)
    pub agrees : is_some (copy_entries K ts h.world).0 ≡ all

  -- Copying the entries is defined; it copies all where the texts are copied.
  pub own_entries_lem :
      (ts : List (Option Text)) (f : ℕ → ℕ) (h : Heap K.World) → Holds f h → Entries ts f h
  unfolding own_entries strdup copy_entries copy_text entries_have
  own_entries_lem [] f h holds = record {
    copied = [];
    all = true;
    returns = (refl, λ q. omega (arith, holds q));
    agrees = refl;
  }
  own_entries_lem (none ∷ ts) f h holds =
      let rest = own_entries_lem ts f h holds in
      record {
        copied = none ∷ rest.copied;
        all = rest.all;
        returns =
            Returns-then (rest.copied, rest.all) (none ∷ rest.copied, rest.all) (own_entries K ts h)
              _ rest.returns λ h' k. (refl, λ q. omega (arith, k q));
        agrees = is_some-continue (copy_entries K ts h.world) (λ ts'. none ∷ ts') ∙ rest.agrees;
      }
  own_entries_lem (some t ∷ ts) f h holds = elim (Bool-cases (K.alloc h.world).0) [
    | inl given ↦
        let rest =
          own_entries_lem ts (λ q. one h.next q + f q) (with_block h)
            (with_block-Holds f h holds) in
        record {
          copied = some h.next ∷ rest.copied;
          all = rest.all;
          returns = rw given (
              Returns-then (rest.copied, rest.all) (some h.next ∷ rest.copied, rest.all)
                (own_entries K ts (with_block h)) _ rest.returns
                λ h' k. (refl, λ q. omega (arith, k q)));
          agrees = rw given (
              is_some-continue (copy_entries K ts (K.alloc h.world).1) (λ ts'. some t ∷ ts')
              ∙ rest.agrees);
        }
    | inr refused ↦ record {
      copied = [];
      all = false;
      returns = rw refused (refl, λ q. omega (arith, holds q));
      agrees = rw refused refl;
    }
  ]

  -- What was copied is freed again.
  pub undo_entries_lem :
      (ps : List Pointer) (f : ℕ → ℕ) (h : Heap K.World)
      → Holds (λ q. entries_have ps q + f q) h
      → Returns tt f (undo_entries K ps h)
  unfolding undo_entries entries_have
  undo_entries_lem [] f h holds = (refl, λ q. omega (arith, holds q))
  undo_entries_lem (p ∷ ps) f h holds =
      let g = λ (q : ℕ). entries_have ps q + f q in
      Returns-then tt tt (free_pointer K p h) _
        (free_pointer_lem K (λ q. entries_have (p ∷ ps) q + f q) g h holds p (λ q. omega arith))
        λ h' k. undo_entries_lem ps f h' k
