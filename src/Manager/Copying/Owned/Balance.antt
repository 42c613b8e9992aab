-- ===== src/Manager/Copying/Owned/Balance.antt =====
-- The copies of configurations in src/container_manager.cpp and their blocks: the copy on the heap
-- against the copy as a value, and what freeing it gives back.
use mathlib.Core.Option.{some-injective}
use mini_container.Prelude.{
  ℕ, ◌+◌, ◌≡◌, refl, sym, ◌∙◌, Bool, Option, none, some, continue, Exec, is_some,
}
use mini_container.Kernel.{Kernel}
use mini_container.Config.{ContainerConfig}
use mini_container.Manager.Copying.{allocate, copy_text, copy_command, copy_container_config}
use mini_container.Manager.Copying.Owned.{Heap, Copy, count, own_copy, free_container_config}
use mini_container.Manager.Copying.Owned.Blocks.{
  lost, owned, Holds, Returns, free_container_config_lem,
}
use mini_container.Manager.Copying.Owned.Entries.{is_some-continue}
use mini_container.Manager.Copying.Owned.Ends.{Ends, is_copied, is_refused, is_undefined, IsFresh}
use mini_container.Manager.Copying.Owned.Outcome.{bare, all_texts, own_copy_stages}

is_some-bind :
    {S A B C : Type 0} (r : Option A × S) (f : A → Exec S B) (g : A → Exec S C)
    → ((a : A) (s : S) → is_some (f a s).0 ≡ is_some (g a s).0)
    → is_some (continue r f).0 ≡ is_some (continue r g).0
is_some-bind (none, s) f g same = refl
is_some-bind (some a, s) f g same = same a s

made :
    {K : Kernel} {base : ℕ → ℕ} {v b : Bool} {r : Option (Option Copy) × Heap K.World} {c : Copy}
    → Ends K base v b r
    → r.0 ≡ some (some c)
    → Holds (λ q. owned c q + base q) r.1
made {base} {r} {c} (is_copied d given e holds) f =
    rw (some-injective d c (some-injective (some d) (some c) (sym e ∙ f))) at holds
made (is_refused given bare e back) f = absurd (cc (e, f))
made (is_undefined given bare e) f = absurd (cc (e, f))

module _ (K : Kernel) where
  open K use {World}

  copy_container_config-all_texts :
      (src : ContainerConfig) (w : World)
      → is_some (copy_container_config K src w).0 ≡ is_some (all_texts K src src.command w).0
  unfolding copy_container_config
  copy_container_config-all_texts src w = is_some-bind (allocate K w) _ _ λ u w₁.
      is_some-bind (copy_text K src.id w₁) _ _ λ u w₂.
        is_some-bind (copy_text K src.root_path w₂) _ _ λ u w₃.
          is_some-bind (copy_text K src.fs_config.root_path w₃) _ _
            λ u w₄. is_some-continue (copy_command K src.command src.command_argc w₄) _

  module _ (src : ContainerConfig) (h : Heap World) (fresh : IsFresh h) where
    -- Where the heap has no block with the number of the next one or a greater one: the copy on the
    -- heap is made where the copy as a value is, and then owns what was allocated. Where the value
    -- fails for a text outside the command, or for an array, the result is null and every block is
    -- given back. Where it fails for an entry of the command, the code is undefined: it frees the
    -- array and then reads it.
    pub own_copy-Ends :
        Ends K
          (λ q. count q h.blocks)
          (is_some (copy_container_config K src h.world).0)
          (is_some (copy_container_config K (bare src) h.world).0)
          (own_copy K src h)
    own_copy-Ends =
        rw
          (
            copy_container_config-all_texts src h.world,
            copy_container_config-all_texts (bare src) h.world,
          )
          (own_copy_stages K src (λ q. count q h.blocks) h fresh (λ q. refl))

    -- Where the heap has no block with the number of the next one or a greater one: a copy that was
    -- made is freed without undefined behaviour, and what is then in use beside the blocks from
    -- before are the entries of its command behind the first null.
    pub free_container_config-own_copy :
        (c : Copy)
        → (own_copy K src h).0 ≡ some (some c)
        → Returns tt
            (λ q. lost c q + count q h.blocks)
            (free_container_config K c (own_copy K src h).1)
    free_container_config-own_copy c e =
        free_container_config_lem K c (λ q. count q h.blocks) (own_copy K src h).1
          (made own_copy-Ends e)
