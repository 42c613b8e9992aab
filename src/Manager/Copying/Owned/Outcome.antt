-- ===== src/Manager/Copying/Owned/Outcome.antt =====
-- `copy_container_config` of src/container_manager.cpp, stage by stage: its end on the heap against
-- whether the texts are copied.
use mini_container.Prelude.{
  ℕ, zero, suc, ◌+◌, ◌≡◌, refl, ap, inl, inr, List, [], Option, none, some, arith, Bool-cases, pure,
  ◌>>=◌, is_some, take, to_ℕ, is_positive, ℤ, Exec, ◌>>◌,
}
use mini_container.Text.{Text}
use mini_container.Kernel.{Kernel}
use mini_container.Config.{ContainerConfig}
use mini_container.Manager.Copying.{allocate, copy_text, copy_entries, copy_command}
use mini_container.Manager.Copying.Owned.{
  Heap, Copy, Mem, empty_copy, free, discard, own_command, own_fs_root, own_root_path, own_id,
  own_copy,
}
use mini_container.Manager.Copying.Owned.Blocks.{has, owned, Holds, Returns-then, free_lem}
use mini_container.Manager.Copying.Owned.Entries.{is_some-continue, with_block, with_block-Holds}
use mini_container.Manager.Copying.Owned.Ends.{
  Ends, is_copied, is_refused, IsFresh, discard_lem, own_array_lem, strdup_lem, with_block-IsFresh,
}

-- The command without its texts.
abbrev pub bare_command : Option (List (Option Text)) → Option (List (Option Text))
bare_command none = none
bare_command (some ts) = some []

abbrev pub bare : ContainerConfig → ContainerConfig
bare src = record src { command = bare_command src.command }

take-nil : (n : ℕ) → take {A = Option Text} n [] ≡ []
take-nil zero = refl
take-nil (suc n) = refl

module _ (K : Kernel) (src : ContainerConfig) where
  open K use {World}

  -- The texts that are still to be copied at each stage, without the copies.
  abbrev pub Texts : Type 0
  Texts = Exec World (Option (List (Option Text)) × ℤ)

  abbrev pub texts_of_command : Option (List (Option Text)) → Texts
  texts_of_command command = copy_command K command src.command_argc

  abbrev pub texts_of_fs_root : Option (List (Option Text)) → Texts
  texts_of_fs_root command = copy_text K src.fs_config.root_path >>= λ u. texts_of_command command

  abbrev pub texts_of_root_path : Option (List (Option Text)) → Texts
  texts_of_root_path command = copy_text K src.root_path >>= λ u. texts_of_fs_root command

  abbrev pub texts_of_id : Option (List (Option Text)) → Texts
  texts_of_id command = copy_text K src.id >>= λ u. texts_of_root_path command

  abbrev pub all_texts : Option (List (Option Text)) → Texts
  all_texts command = allocate K >>= λ u. texts_of_id command

  module _ (base : ℕ → ℕ) where
    -- How a stage ends, that begins with what the copy owns so far.
    abbrev Stage : (Option (List (Option Text)) → Texts) → Mem K (Option Copy) → Copy → Type 0
    Stage texts own c =
        (h : Heap World)
        → IsFresh h
        → Holds (λ q. owned c q + base q) h
        → Ends K base (is_some (texts src.command h.world).0)
            (is_some (texts (bare_command src.command) h.world).0) (own h)

    command_cases :
        (command : Option (List (Option Text))) (c : Copy)
        → src.command ≡ command
        → c.command ≡ none
        → (h : Heap World) → IsFresh h
        → Holds (λ q. owned c q + base q) h
        → Ends K base
            (is_some (texts_of_command command h.world).0)
            (is_some (texts_of_command (bare_command command) h.world).0)
            (own_command K src c h)
    unfolding own_command copy_command
    command_cases none c e empty h fresh holds = rw e (is_copied c refl refl holds)
    command_cases (some ts) c e empty h fresh holds =
        elim (Bool-cases (is_positive src.command_argc)) [
          | inl some_entries ↦
              rw (e, some_entries)
                (own_array_lem K base (take (to_ℕ src.command_argc) ts) c h _ _ empty fresh holds
                  (λ refused. rw refused (refl, refl))
                  (λ given. rw given (
                    is_some-continue
                        (copy_entries K (take (to_ℕ src.command_argc) ts) (K.alloc h.world).1)
                        (λ copied. (some copied, src.command_argc)),
                    rw (take-nil (to_ℕ src.command_argc)) refl,
                  )))
          | inr no_entries ↦ rw (e, no_entries) (is_copied c refl refl holds)
        ]

    command-Stage : (c : Copy) → c.command ≡ none → Stage texts_of_command (own_command K src c) c
    command-Stage c empty h fresh holds = command_cases src.command c refl empty h fresh holds

    fs_root-Stage :
        (c : Copy)
        → c.command ≡ none
        → c.fs_root ≡ none
        → Stage texts_of_fs_root (own_fs_root K src c) c
    unfolding own_fs_root owned
    fs_root-Stage c empty no_fs h fresh holds =
        strdup_lem K base (texts_of_command src.command)
          (texts_of_command (bare_command src.command)) (discard K c)
          (λ p. own_command K src (record c { fs_root = p })) (λ q. owned c q + base q)
          (λ h' k. discard_lem K base c h' empty k)
          (λ p h' f k.
            command-Stage (record c { fs_root = p }) empty h' f
              (λ q. omega (arith, k q, ap (λ x. has x q) no_fs)))
          src.fs_config.root_path h fresh holds

    root_path-Stage :
        (c : Copy)
        → c.command ≡ none
        → c.fs_root ≡ none
        → c.root_path ≡ none
        → Stage texts_of_root_path (own_root_path K src c) c
    unfolding own_root_path owned
    root_path-Stage c empty no_fs no_root h fresh holds =
        strdup_lem K base (texts_of_fs_root src.command)
          (texts_of_fs_root (bare_command src.command)) (discard K c)
          (λ p. own_fs_root K src (record c { root_path = p })) (λ q. owned c q + base q)
          (λ h' k. discard_lem K base c h' empty k)
          (λ p h' f k.
            fs_root-Stage (record c { root_path = p }) empty no_fs h' f
              (λ q. omega (arith, k q, ap (λ x. has x q) no_root)))
          src.root_path h fresh holds

    id-Stage : (p : ℕ) → Stage texts_of_id (own_id K src (empty_copy p)) (empty_copy p)
    unfolding own_id owned
    id-Stage p h fresh holds =
        strdup_lem K base (texts_of_root_path src.command)
          (texts_of_root_path (bare_command src.command)) (do free K p; pure none)
          (λ id. own_root_path K src (record (empty_copy p) { id = id }))
          (λ q. owned (empty_copy p) q + base q)
          (λ h' k.
            Returns-then tt none (free K p h') _
              (free_lem K (λ q. owned (empty_copy p) q + base q) base h' k p (λ q. omega arith))
              λ h'' k'. (refl, k'))
          (λ id h' f k.
            root_path-Stage (record (empty_copy p) { id = id }) refl refl refl h' f
              (λ q. omega (arith, k q)))
          src.id h fresh holds

    pub own_copy_stages :
        (h : Heap World)
        → IsFresh h
        → Holds base h
        → Ends K base
            (is_some (all_texts src.command h.world).0)
            (is_some (all_texts (bare_command src.command) h.world).0)
            (own_copy K src h)
    unfolding own_copy owned
    own_copy_stages h fresh holds = elim (Bool-cases (K.alloc h.world).0) [
      | inl given ↦ rw given (
          id-Stage h.next (with_block K h) (with_block-IsFresh K base h fresh)
            (λ q. omega (arith, with_block-Holds K base h holds q)))
      | inr refused ↦ rw refused (is_refused refl refl refl holds)
    ]
