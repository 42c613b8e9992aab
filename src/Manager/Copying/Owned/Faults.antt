-- ===== src/Manager/Copying/Owned/Faults.antt =====
-- Freeing a configuration whose array is gone is undefined.
use mini_container.Prelude.{
  ℕ, ◌≡◌, ◌≤◌, refl, List, [], ◌∷◌, ◌++◌, Option, none, some, arith, continue,
}
use mini_container.Kernel.{Kernel}
use mini_container.Manager.Copying.Owned.{
  Pointer, Heap, Copy, Mem, count, remove, touch, free_pointer, free_entries, free_command,
  free_container_config, discard,
}

count-remove_le : (p q : ℕ) (bs : List ℕ) → count p (remove q bs) ≤ count p bs
count-remove_le p q [] = omega arith
count-remove_le p q (b ∷ bs) = ground (arith, count-remove_le p q bs)

module _ (K : Kernel) (p : ℕ) where
  abbrev Gone : Heap K.World → Type 0
  Gone h = count p h.blocks ≡ 0

  -- What is gone stays gone, and what follows is undefined.
  then_faults :
      {A B : Type 0} (r : Option A × Heap K.World) (n : A → Mem K B)
      → Gone r.1
      → ((a : A) (h : Heap K.World) → Gone h → (n a h).0 ≡ none)
      → (continue r n).0 ≡ none
  then_faults (none, h) n gone next = refl
  then_faults (some a, h) n gone next = next a h gone

  then_none :
      {A B : Type 0} (r : Option A × Heap K.World) (n : A → Mem K B)
      → r.0 ≡ none
      → (continue r n).0 ≡ none
  then_none (none, h) n e = refl
  then_none (some a, h) n e = absurd (cc e)

  free_pointer-Gone : (q : Option ℕ) (h : Heap K.World) → Gone h → Gone (free_pointer K q h).1
  free_pointer-Gone none h gone = gone
  free_pointer-Gone (some q) h gone = omega (arith, count-remove_le p q h.blocks)

  free_entries-faults :
      (ps : List Pointer) (h : Heap K.World)
      → Gone h
      → (free_entries K p (ps ++ (none ∷ [])) h).0 ≡ none
  unfolding free_entries
  free_entries-faults [] h gone = ground (arith, gone)
  free_entries-faults (none ∷ ps) h gone = ground (arith, gone)
  free_entries-faults (some q ∷ ps) h gone = ground (arith, gone)

  free_command-faults :
      (ps : List Pointer) (h : Heap K.World)
      → Gone h
      → (free_command K (some (p, ps ++ (none ∷ []))) h).0 ≡ none
  unfolding free_command
  free_command-faults ps h gone =
      then_none (free_entries K p (ps ++ (none ∷ [])) h) _ (free_entries-faults ps h gone)

  free_container_config-faults :
      (c : Copy) (ps : List Pointer) (h : Heap K.World)
      → Gone h
      → (free_container_config K (record c { command = some (p, ps ++ (none ∷ [])) }) h).0 ≡ none
  unfolding free_container_config
  free_container_config-faults c ps h gone = then_faults (touch K c.self h) _ gone λ u h₁ gone₁.
      then_faults (free_pointer K c.id h₁) _ (free_pointer-Gone c.id h₁ gone₁) λ u h₂ gone₂.
        then_faults (free_pointer K c.root_path h₂) _ (free_pointer-Gone c.root_path h₂ gone₂)
          λ u h₃ gone₃.
            then_faults (free_pointer K c.fs_root h₃) _ (free_pointer-Gone c.fs_root h₃ gone₃)
              λ u h₄ gone₄.
                then_none (free_command K (some (p, ps ++ (none ∷ []))) h₄) _
                  (free_command-faults ps h₄ gone₄)

  pub discard-faults :
      (c : Copy) (ps : List Pointer) (h : Heap K.World)
      → Gone h
      → (discard K (record c { command = some (p, ps ++ (none ∷ [])) }) h).0 ≡ none
  unfolding discard
  discard-faults c ps h gone =
      then_none (free_container_config K (record c { command = some (p, ps ++ (none ∷ [])) }) h) _
        (free_container_config-faults c ps h gone)
