-- ===== src/Manager/Copying/Laws.antt =====
-- A copied configuration is the original one, with its command cut to `command_argc` entries.
use mini_container.Prelude.{
  ◌≡◌, refl, List, [], ◌∷◌, Option, none, some, if◌then◌else◌, Bool-cases, inl, inr, ℤ, pos,
  is_positive, to_ℕ, take, Outcome, on_return, Outcome-bind, Outcome-guard, Outcome-weaken,
  Outcome-returned,
}
use mini_container.Text.{Text}
use mini_container.Kernel.{Kernel}
use mini_container.Config.{ContainerConfig}
use mini_container.Manager.Copying.{
  allocate, copy_text, copy_entries, copy_command, copy_container_config,
}

-- What a copy keeps of the command.
pub kept_command : Option (List (Option Text)) → ℤ → Option (List (Option Text)) × ℤ
kept_command none argc = (none, pos 0)
kept_command (some command) argc =
    if is_positive argc then (some (take (to_ℕ argc) command), argc) else (none, pos 0)

unfoldable pub deep_copy : ContainerConfig → ContainerConfig
unfolding kept_command
deep_copy c = record c {
  command = (kept_command c.command c.command_argc).0;
  command_argc = (kept_command c.command c.command_argc).1;
}

module _ (K : Kernel) where
  open K use {World}

  abbrev Anything : World → Type 0
  Anything w = Unit {0}

  abbrev Gives : {A : Type 0} → A → Option A × World → Type 0
  Gives a = Outcome Anything (λ b w. b ≡ a)

  allocate_lem : (w : World) → Outcome Anything (λ u w. Unit {0}) (allocate K w)
  allocate_lem w =
      Outcome-weaken (allocate K w) (λ v e. e) (λ u v q. tt) (Outcome-guard Anything _ _ tt)

  copy_text_lem : (t : Option Text) (w : World) → Gives t (copy_text K t w)
  unfolding copy_text
  copy_text_lem none w = on_return refl
  copy_text_lem (some t) w = Outcome-bind _ _ (allocate_lem w) (λ u v q. on_return refl)

  copy_entries_lem : (ts : List (Option Text)) (w : World) → Gives ts (copy_entries K ts w)
  unfolding copy_entries
  copy_entries_lem [] w = on_return refl
  copy_entries_lem (t ∷ ts) w =
      Outcome-bind _ _ (copy_text_lem t w)
        λ t' v e. Outcome-bind _ _ (copy_entries_lem ts v) λ ts' v' e'. on_return (λ i. e i ∷ e' i)

  copy_command_lem :
      (command : Option (List (Option Text))) (argc : ℤ) (w : World)
      → Gives (kept_command command argc) (copy_command K command argc w)
  unfolding copy_command kept_command
  copy_command_lem none argc w = on_return refl
  copy_command_lem (some command) argc w = elim (Bool-cases (is_positive argc)) [
    | inl e ↦ rw e (
        Outcome-bind _ _ (allocate_lem w) λ u v q.
          Outcome-bind _ _ (copy_entries_lem (take (to_ℕ argc) command) v)
            λ ts v' e'. on_return (λ i. (some (e' i), argc)))
    | inr e ↦ rw e (on_return refl)
  ]

  -- A copy that is made is the deep copy.
  pub copy_container_config_lem :
      (src : ContainerConfig) (w : World) → Gives (deep_copy src) (copy_container_config K src w)
  unfolding copy_container_config deep_copy
  copy_container_config_lem src w = Outcome-bind _ _ (allocate_lem w) λ u v q.
      Outcome-bind _ _ (copy_text_lem src.id v) λ id v1 e1.
        Outcome-bind _ _ (copy_text_lem src.root_path v1) λ root v2 e2.
          Outcome-bind _ _ (copy_text_lem src.fs_config.root_path v2) λ fs_root v3 e3.
            Outcome-bind _ _ (copy_command_lem src.command src.command_argc v3) λ command v4 e4.
              on_return λ i. record src {
                id = e1 i;
                root_path = e2 i;
                fs_config = record src.fs_config { root_path = e3 i };
                command = (e4 i).0;
                command_argc = (e4 i).1;
              }

  -- A copy that is made equals the original, its command cut to the entries that `command_argc`
  -- counts.
  pub copy_container_config-eq :
      (src : ContainerConfig) (w : World) {c : ContainerConfig}
      → (copy_container_config K src w).0 ≡ some c
      → c ≡ deep_copy src
  copy_container_config-eq src w e = Outcome-returned _ _ (copy_container_config_lem src w) e
