-- ===== src/Command/Menu/Laws.antt =====
-- The menu and the monitor change the table by calls of the container manager alone.
use mini_container.Prelude.{
  ℕ, ◌≡◌, refl, List, [], ◌∷◌, Option, none, some, Option-cases, inl, inr, arith,
}
use mini_container.Text.{Text, text}
use mini_container.Kernel.{Kernel}
use mini_container.Config.{
  ContainerInfo, ContainerState, created, running, stopped, destroyed, unnamed,
}
use mini_container.Manager.Table.{Sys, containers_of, container_manager_get_info}
use mini_container.Manager.Lifecycle.{Fuel}
use mini_container.Manager.Runs.Laws.{Goes, Goes-same, Goes-trans}
use mini_container.Manager.History.{IsGoing, perform, perform-Goes, stop}
use mini_container.Command.Options.{Library}
use mini_container.Command.Handlers.Laws.{
  handle_start-Goes, handle_stop-Goes, handle_destroy-Goes, handle_info-Goes,
}
use mini_container.Command.Shutdown.{over_table, stop_running_entry}
use mini_container.Command.Shutdown.Loops.{over_table-keeps}
use mini_container.Command.Monitor.{Sort, display_monitor, display_compact_monitor, monitor_screen}
use mini_container.Command.Workloads.Laws.{run_memory_cpu_test-Goes}
use mini_container.Command.Form.{fgets, chomp, typed_id}
use mini_container.Command.Form.Laws.{interactive_create_container-Goes}
use mini_container.Command.Menu.{
  Round, edit_in, chosen_edit, show_world, edit, if_typed, if_known, stop_option, destroy_entry,
  destroy_known, destroy_option, edit_option, start_entry, start_known, start_option, info_option,
  menu_option, menu_round, interactive_menu, Dialog,
}

module _ (K : Kernel) (fuel : Fuel) where
  -- After a screen and the five seconds.
  abbrev awake : Sort → Sys K → Sys K
  awake sort s = let t = monitor_screen K sort s in record t { world = K.usleep 5000000 t.world }

  pub display_monitor-Goes :
      (sort : Sort) (keys : List (Option ℕ)) → IsGoing K (display_monitor K sort keys)
  unfolding display_monitor monitor_screen
  display_monitor-Goes sort [] s v = Goes-same v refl
  display_monitor-Goes sort (key ∷ keys) s v =
      let same = Goes-same {K = K} v refl in
      let rest = display_monitor-Goes sort keys (awake sort s) v in ground (arith, same, rest)

  pub shown-manager :
      (sort : Sort) (s : Sys K) → (display_compact_monitor K sort s).1.manager ≡ s.manager
  unfolding display_compact_monitor
  shown-manager sort s = refl

  -- Option 0.
  stop_running-Goes : IsGoing K (over_table K fuel (stop_running_entry K fuel))
  unfolding stop_running_entry perform
  stop_running-Goes s v =
      over_table-keeps K fuel (λ t. Goes K s.manager t.manager) (stop_running_entry K fuel)
        (λ i c t g.
          let h = Goes-trans g (perform-Goes K fuel (stop c.id) t g.valid) in ground (arith, g, h))
        s (Goes-same v refl)

module _ (K : Kernel) (fuel : Fuel) (lib : Library) where
  edit_in-Goes : (state : ContainerState) (id : Text) → IsGoing K (edit_in K fuel lib state id)
  unfolding edit_in
  edit_in-Goes created id s v = Goes-same v refl
  edit_in-Goes running id s v = handle_stop-Goes K fuel lib (text "stop" ∷ id ∷ []) s v
  edit_in-Goes stopped id s v = handle_start-Goes K fuel lib (text "start" ∷ id ∷ []) s v
  edit_in-Goes destroyed id s v = Goes-same v refl
  edit_in-Goes (unnamed n) id s v = Goes-same v refl

  chosen_edit-Goes :
      (option : Option Text) (state : ContainerState) (id : Text)
      → IsGoing K (chosen_edit K fuel lib option state id)
  unfolding chosen_edit
  chosen_edit-Goes none state id s v = Goes-same v refl
  chosen_edit-Goes (some option) state id s v =
      let same = Goes-same {K = K} v refl in
      let g = edit_in-Goes state id s v in ground (arith, same, g)

  edit-Goes : (info : ContainerInfo) (id rest : Text) → IsGoing K (edit K fuel lib info id rest)
  unfolding edit
  edit-Goes info id rest s v =
      chosen_edit-Goes (fgets 10 rest).0 info.state id
        (record s { world = show_world K fuel lib info id s }) v

  if_typed-Goes :
      (dialog : Dialog K fuel lib) (typed : Text)
      → ((id rest : Text) → IsGoing K (dialog id rest))
      → IsGoing K (if_typed K fuel lib dialog typed)
  unfolding if_typed
  if_typed-Goes dialog typed goes s v = elim (Option-cases (typed_id typed)) [
    | inl e ↦ rw (e, if_typed) (Goes-same v refl)
    | inr ((id, rest), e) ↦ rw (e, if_typed) (goes id rest s v)
  ]

  if_known-Goes :
      (dialog : ContainerInfo → Dialog K fuel lib) (id rest : Text)
      → ((info : ContainerInfo) (id rest : Text) → IsGoing K (dialog info id rest))
      → IsGoing K (if_known K fuel lib dialog id rest)
  unfolding if_known
  if_known-Goes dialog id rest goes s v =
      elim (Option-cases (container_manager_get_info (containers_of K s) id)) [
        | inl e ↦ rw (e, if_known) (Goes-same v refl)
        | inr ((i, info), e) ↦ rw (e, if_known) (goes info id rest s v)
      ]

  info_option-Goes : (line : Option Text) → IsGoing K (info_option K fuel lib line)
  unfolding info_option
  info_option-Goes none s v = Goes-same v refl
  info_option-Goes (some line) s v = handle_info-Goes K fuel lib (text "info" ∷ chomp line ∷ []) s v

  stop_option-Goes : (typed : Text) → IsGoing K (stop_option K fuel lib typed)
  unfolding stop_option
  stop_option-Goes typed =
      if_typed-Goes _ typed λ id rest. handle_stop-Goes K fuel lib (text "stop" ∷ id ∷ [])

  destroy_known-Goes : (id rest : Text) → IsGoing K (destroy_known K fuel lib id rest)
  unfolding destroy_known
  destroy_known-Goes id rest =
      if_known-Goes (destroy_entry K fuel lib) id rest
        λ info i r. handle_destroy-Goes K fuel lib (text "destroy" ∷ i ∷ [])

  start_known-Goes : (id rest : Text) → IsGoing K (start_known K fuel lib id rest)
  unfolding start_known
  start_known-Goes id rest =
      if_known-Goes (start_entry K fuel lib) id rest
        λ info i r. handle_start-Goes K fuel lib (text "start" ∷ i ∷ [])

  destroy_option-Goes : (typed : Text) → IsGoing K (destroy_option K fuel lib typed)
  unfolding destroy_option
  destroy_option-Goes typed = if_typed-Goes _ typed destroy_known-Goes

  start_option-Goes : (typed : Text) → IsGoing K (start_option K fuel lib typed)
  unfolding start_option
  start_option-Goes typed = if_typed-Goes _ typed start_known-Goes

  edit_option-Goes : (typed : Text) → IsGoing K (edit_option K fuel lib typed)
  unfolding edit_option
  edit_option-Goes typed =
      if_typed-Goes _ typed λ id rest. if_known-Goes (edit K fuel lib) id rest edit-Goes

  menu_option-Goes :
      (sort : Sort) (sysinfo : Option ℕ) (c : ℕ) (round : Round)
      → IsGoing K (menu_option K fuel lib sort sysinfo c round)
  unfolding menu_option
  menu_option-Goes sort sysinfo c round s v =
      let creates = interactive_create_container-Goes K fuel lib round.typed s v in
      let shows = display_monitor-Goes K fuel sort round.keys s v in
      let stops = stop_option-Goes round.typed s v in
      let destroys = destroy_option-Goes round.typed s v in
      let tells = info_option-Goes (fgets 256 round.typed).0 s v in
      let edits = edit_option-Goes round.typed s v in
      let starts = start_option-Goes round.typed s v in
      let tests = run_memory_cpu_test-Goes K fuel lib sysinfo s v in
      let ends = stop_running-Goes K fuel s v in
      let same = Goes-same {K = K} v refl in
      ground (arith, creates, shows, stops, destroys, tells, edits, starts, tests, ends, same)

  menu_round-Goes :
      (sort : Sort) (sysinfo : Option ℕ) (round : Round)
      → IsGoing K (λ s. (menu_round K fuel lib sort sysinfo round s).1)
  unfolding menu_round
  menu_round-Goes sort sysinfo round s v = elim (Option-cases round.key) [
    | inl e ↦ rw (e, menu_round) (Goes-same v (shown-manager K fuel sort s))
    | inr (c, e) ↦
        let same = Goes-same v (shown-manager K fuel sort s) in
        rw (e, menu_round)
          (Goes-trans same
            (menu_option-Goes sort sysinfo c round (display_compact_monitor K sort s).1 same.valid))
  ]

  pub interactive_menu-Goes :
      (sort : Sort) (sysinfo : Option ℕ) (rounds : List Round)
      → IsGoing K (interactive_menu K fuel lib sort sysinfo rounds)
  unfolding interactive_menu
  interactive_menu-Goes sort sysinfo [] s v = Goes-same v refl
  interactive_menu-Goes sort sysinfo (round ∷ rounds) s v =
      let g = menu_round-Goes sort sysinfo round s v in
      let rest =
        interactive_menu-Goes sort sysinfo rounds (menu_round K fuel lib sort sysinfo round s).1
          g.valid in
      let all = Goes-trans g rest in ground (arith, g, all)
