-- ===== src/Tests/Blocks.antt =====
-- Copies of configurations on a heap, at concrete inputs.
use mini_container.Prelude.{ℕ, ◌+◌, ◌-◌, ◌≡◌, refl, [], ◌∷◌, some, none, ltb, is_some}
use mini_container.Kernel.{Kernel}
use mini_container.Manager.Copying.{copy_container_config}
use mini_container.Manager.Copying.Owned.{Heap, Copy, count, own_copy, free_container_config}
use mini_container.Manager.Copying.Owned.Blocks.{lost, Returns}
use mini_container.Manager.Copying.Owned.Ends.{Ends}
use mini_container.Manager.Copying.Owned.Outcome.{bare}
use mini_container.Manager.Copying.Owned.Balance.{own_copy-Ends, free_container_config-own_copy}
use mini_container.Tests.Machine.{machine, config}

-- A machine that gives memory so many times.
abbrev poor : Kernel
poor = record machine { alloc = λ w. (ltb 0 w, w - 1) }

abbrev empty_heap : ℕ → Heap ℕ
empty_heap n = record { world = n; blocks = []; next = 1 }

-- Memory for the block and the array, and none for the entry.
copy_ends_undefined : (own_copy poor config (empty_heap 2)).0 ≡ none
unfolding own_copy free_container_config config
copy_ends_undefined = refl

own_copy-Ends_example :
    Ends poor
      (λ q. count q [])
      (is_some (copy_container_config poor config 2).0)
      (is_some (copy_container_config poor (bare config) 2).0)
      (own_copy poor config (empty_heap 2))
own_copy-Ends_example = own_copy-Ends poor config (empty_heap 2) λ q above. refl

abbrev copy : Copy
copy = record {
  self = 1;
  id = none;
  root_path = none;
  fs_root = none;
  command = some (2, some 3 ∷ []);
}

copy_is_made : (own_copy poor config (empty_heap 3)).0 ≡ some (some copy)
unfolding own_copy config
copy_is_made = refl

free_container_config-own_copy_example :
    Returns tt
      (λ q. lost copy q + count q [])
      (free_container_config poor copy (own_copy poor config (empty_heap 3)).1)
free_container_config-own_copy_example =
    free_container_config-own_copy poor config (empty_heap 3) (λ q above. refl) copy copy_is_made
