-- ===== src/Command/Options/Limits.antt =====
-- What `parse_run_options` accepts, and the memory limit that it makes of megabytes.
use mini_container.Prelude.{
  ℕ, ◌+◌, ◌*◌, ◌-◌, ◌^◌, ◌<◌, ◌≡◌, ◌≢◌, inl, inr, arith, ltb, List, [], ◌∷◌, none, some, map,
  length, pos, int_of_long, if◌then◌else◌, Option-cases,
}
use mini_container.Text.{Text}
use mini_container.Kernel.{Kernel}
use mini_container.Command.Options.{
  Library, RunOptions, memory_bytes, apply_options, apply_option, initial_options,
  parse_run_options,
}

-- Below 2048 MB the limit is the number of bytes. From 2048 MB to 4095 MB the product overflows the
-- `int`: wrapped and stored as an `unsigned long`, it is above 2^63.
pub memory_bytes-pos :
    (n : ℕ)
    → n < 4096
    → memory_bytes (pos n) ≡ (if ltb n 2048 then n * 1048576 else 2 ^ 64 - 2 ^ 32 + n * 1048576)
unfolding memory_bytes int_of_long
memory_bytes-pos n h = ground arith

module _ (K : Kernel) where
  -- An option sets a limit, the root or the detach flag, and leaves the identifier alone.
  apply_option-id :
      (option : ℕ × Text) (o : RunOptions) (w : K.World) (p : RunOptions)
      → (apply_option K option o w).0 ≡ some p
      → p.config.id ≡ o.config.id
  unfolding apply_option
  apply_option-id option o w p h = ground arith

  apply_options-id :
      (options : List (ℕ × Text)) (o : RunOptions) (w : K.World) (p : RunOptions)
      → (apply_options K options o w).0 ≡ some p
      → p.config.id ≡ o.config.id
  unfolding apply_options
  apply_options-id [] o w p h = ground arith
  apply_options-id (option ∷ options) o w p h = elim (Option-cases (apply_option K option o w).0) [
    | inl refused ↦ absurd (ground arith)
    | inr (q, e) ↦
        let v = (apply_option K option o w).1 in
        ground (arith, apply_option-id option o w q, apply_options-id options q v p)
  ]

  -- Options that are accepted leave a configuration without an identifier, with a root path, and
  -- with the operands, one at least, as its command.
  pub parse_run_options_lem :
      (lib : Library) (argv : List Text) (w : K.World) (o : RunOptions)
      → (parse_run_options K lib argv w).0 ≡ some o
      → (o.config.id ≡ none)
        × (o.config.fs_config.root_path ≢ none)
        × (lib.operands argv ≢ [])
        × (o.config.command ≡ some (map (λ v. some v) (lib.operands argv)))
        × (o.config.command_argc ≡ pos (length (lib.operands argv)))
  unfolding parse_run_options initial_options
  parse_run_options_lem lib argv w o h =
      let options = lib.options argv in
      elim (Option-cases (apply_options K options (initial_options lib) w).0) [
        | inl refused ↦ absurd (ground arith)
        | inr (q, e) ↦ ground (arith, apply_options-id options (initial_options lib) w q e)
      ]
