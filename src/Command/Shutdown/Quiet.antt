-- ===== src/Command/Shutdown/Quiet.antt =====
-- What `signal_handler` leaves of the table.
use mathlib.Core.Path.{subst}
use mathlib.Core.Option.{some-injective}
use mini_container.Prelude.{
  ℕ, zero, suc, ◌+◌, ◌≡◌, refl, sym, ap, ◌∙◌, inl, inr, true, false, List, [], ◌∷◌, some,
  Option-cases, arith, All, get_elem?, modify, length, length-modify, ℤ,
}
use mini_container.Kernel.{Kernel, Signal, sigkill}
use mini_container.Config.{
  ContainerInfo, ContainerManager, ContainerState, created, running, stopped, destroyed, unnamed,
  is_created, is_running,
}
use mini_container.Manager.Table.{Sys}
use mini_container.Manager.Table.Lookup.{get_info-entry}
use mini_container.Manager.Lifecycle.{Fuel, container_manager_stop}
use mini_container.Manager.Lifecycle.Starting.{halted, rewritten}
use mini_container.Manager.Lifecycle.Stopping.{Stops, container_manager_stop-Stops}
use mini_container.Manager.Validity.{IsValid, rewritten-IsValid, stop-IsValid}
use mini_container.Command.Shutdown.Loops.{over_table-keeps}
use mini_container.Command.Shutdown.{
  count_up, at_entry, over_table, signal_group, ask_to_end, stop_running_entry, kill_entry,
  settle_in, settle_entry, signal_handler,
}

abbrev pub IsQuiet : ContainerInfo → Type 0
IsQuiet c = (is_created c.state ≡ false) × (is_running c.state ≡ false)

-- The entries below an index.
abbrev QuietTo : ℕ → List ContainerInfo → Type 0
QuietTo zero cs = Unit {0}
QuietTo (suc i) [] = Unit {0}
QuietTo (suc i) (c ∷ cs) = IsQuiet c × QuietTo i cs

QuietTo-modify :
    (now : ℤ) (i : ℕ) (cs : List ContainerInfo)
    → QuietTo i cs
    → QuietTo (suc i) (modify (halted now) cs i)
QuietTo-modify now zero [] h = tt
QuietTo-modify now zero (c ∷ cs) h = ((refl, refl), tt)
QuietTo-modify now (suc i) [] h = tt
QuietTo-modify now (suc i) (c ∷ cs) (q, h) = (q, QuietTo-modify now i cs h)

QuietTo-next :
    (i : ℕ) (cs : List ContainerInfo)
    → ((c : ContainerInfo) → get_elem? cs i ≡ some c → IsQuiet c)
    → QuietTo i cs
    → QuietTo (suc i) cs
QuietTo-next zero [] quiet h = tt
QuietTo-next zero (c ∷ cs) quiet h = (quiet c refl, tt)
QuietTo-next (suc i) [] quiet h = tt
QuietTo-next (suc i) (c ∷ cs) quiet (q, h) = (q, QuietTo-next i cs quiet h)

QuietTo-All : (cs : List ContainerInfo) → QuietTo (length cs) cs → All IsQuiet cs
QuietTo-All [] h = tt
QuietTo-All (c ∷ cs) (q, h) = (q, QuietTo-All cs h)

module _ (K : Kernel) (fuel : Fuel) where
  -- In a valid table, a stop by the identifier of a RUNNING entry marks that entry.
  stop-entry :
      (s : Sys K) (i : ℕ) (c : ContainerInfo)
      → IsValid s.manager
      → get_elem? s.manager.containers i ≡ some c
      → is_running c.state ≡ true
      → (now : ℤ) × ((container_manager_stop K fuel c.id s).1.manager
          ≡ rewritten s.manager i (halted now))
  stop-entry s i c v at on = from (
      subst (λ f. Stops K fuel s f (container_manager_stop K fuel c.id s))
        (get_info-entry s.manager.containers i c v.distinct at)
        (container_manager_stop-Stops K fuel s c.id))
    where
      from :
          Stops K fuel s (some (i, c)) (container_manager_stop K fuel c.id s)
          → (now : ℤ) × ((container_manager_stop K fuel c.id s).1.manager
              ≡ rewritten s.manager i (halted now))
      from (inl (off, r, e)) = absurd (ground arith)
      from (inr (now, told, still, r, e)) = (now, e)

  abbrev Valid : Sys K → Type 0
  Valid s = IsValid s.manager

  ask_to_end-Valid :
      (i : ℕ) (c : ContainerInfo) (s : Sys K) → Valid s → Valid (ask_to_end K fuel i c s)
  unfolding ask_to_end signal_group
  ask_to_end-Valid i c s v = ground (arith, v)

  stop_running_entry-Valid :
      (i : ℕ) (c : ContainerInfo) (s : Sys K) → Valid s → Valid (stop_running_entry K fuel i c s)
  unfolding stop_running_entry
  stop_running_entry-Valid i c s v = ground (arith, stop-IsValid K fuel c.id s v)

  signal_group-Valid :
      (signal : Signal) (c : ContainerInfo) (s : Sys K)
      → Valid s
      → Valid (signal_group K fuel signal c s)
  unfolding signal_group
  signal_group-Valid signal c s v = v

  kill_entry-Valid :
      (i : ℕ) (c : ContainerInfo) (s : Sys K) → Valid s → Valid (kill_entry K fuel i c s)
  unfolding kill_entry
  kill_entry-Valid i c s v =
      let v' = signal_group-Valid sigkill c s v in
      ground (arith, stop-IsValid K fuel c.id (signal_group K fuel sigkill c s) v')

  -- The last loop at index `i`: the entries below are quiet.
  record Settling (n i : ℕ) (s : Sys K) : Type 0 where
    valid : Valid s
    quiet : QuietTo i s.manager.containers
    ahead : n + i ≡ length s.manager.containers

  marks :
      (n i : ℕ) (s : Sys K) (m : ContainerManager) (now : ℤ) (w : K.World)
      → Settling (suc n) i s
      → m ≡ rewritten s.manager i (halted now)
      → Settling n (suc i) (record s { manager = m; world = w })
  marks n i s m now w h e = record {
    valid = subst IsValid (sym e) (rewritten-IsValid s.manager i (halted now) (λ c. refl) h.valid);
    quiet =
        subst (λ k. QuietTo (suc i) k.containers) (sym e)
          (QuietTo-modify now i s.manager.containers h.quiet);
    ahead = omega (
      arith,
      h.ahead,
      ap (λ k. length k.containers) e,
      length-modify (halted now) s.manager.containers i,
    );
  }

  leaves :
      (n i : ℕ) (s : Sys K) (c : ContainerInfo)
      → get_elem? s.manager.containers i ≡ some c
      → IsQuiet c
      → Settling (suc n) i s
      → Settling n (suc i) s
  leaves n i s c at quiet h = record {
    valid = h.valid;
    quiet =
        QuietTo-next i s.manager.containers
          (λ d held. subst IsQuiet (some-injective c d (sym at ∙ held)) quiet) h.quiet;
    ahead = omega (arith, h.ahead);
  }

  settle_in-Settling :
      (n i : ℕ) (s : Sys K) (c : ContainerInfo) (state : ContainerState)
      → get_elem? s.manager.containers i ≡ some c
      → c.state ≡ state
      → Settling (suc n) i s
      → Settling n (suc i) (settle_in K fuel state i c s)
  unfolding settle_in
  settle_in-Settling n i s c created at e h =
      let (now, w) = K.time s.world in marks n i s _ now w h refl
  settle_in-Settling n i s c running at e h =
      let (now, m) = stop-entry s i c h.valid at (ap is_running e) in
      let t = (container_manager_stop K fuel c.id s).1 in marks n i s t.manager now t.world h m
  settle_in-Settling n i s c stopped at e h = leaves n i s c at (ap is_created e, ap is_running e) h
  settle_in-Settling n i s c destroyed at e h =
      leaves n i s c at (ap is_created e, ap is_running e) h
  settle_in-Settling n i s c (unnamed z) at e h =
      leaves n i s c at (ap is_created e, ap is_running e) h

  settle-at :
      (n i : ℕ) (s : Sys K)
      → Settling (suc n) i s
      → Settling n (suc i) (at_entry K fuel (settle_entry K fuel) i s)
  unfolding at_entry settle_entry
  settle-at n i s h = elim (Option-cases (get_elem? s.manager.containers i)) [
    | inl e ↦
        rw (e, at_entry)
          (record {
            valid = h.valid;
            quiet = QuietTo-next i s.manager.containers (λ c at. absurd (cc (e, at))) h.quiet;
            ahead = omega (arith, h.ahead);
          })
    | inr (c, e) ↦ rw (e, at_entry) (settle_in-Settling n i s c c.state e refl h)
  ]

  settle-All :
      (n i : ℕ) (s : Sys K)
      → Settling n i s
      → All IsQuiet (count_up (at_entry K fuel (settle_entry K fuel)) n i s).manager.containers
  unfolding count_up
  settle-All zero i s h =
      QuietTo-All s.manager.containers
        (subst (λ k. QuietTo k s.manager.containers) (omega (arith, h.ahead)) h.quiet)
  settle-All (suc n) i s h = settle-All n (suc i) _ (settle-at n i s h)

  -- In a valid table the handler of SIGINT and SIGTERM leaves no container CREATED or RUNNING,
  -- whatever the system answers.
  pub signal_handler-IsQuiet :
      (s : Sys K) → IsValid s.manager → All IsQuiet (signal_handler K fuel s).manager.containers
  unfolding signal_handler over_table
  signal_handler-IsQuiet s v =
      let asked = over_table K fuel (ask_to_end K fuel) s in
      let woken = record asked { world = K.usleep 500000 asked.world } in
      let ended = over_table K fuel (stop_running_entry K fuel) woken in
      let rested = record ended { world = K.usleep 1000000 ended.world } in
      let killed = over_table K fuel (kill_entry K fuel) rested in
      let asked_valid = over_table-keeps K fuel Valid (ask_to_end K fuel) ask_to_end-Valid s v in
      let ended_valid =
        over_table-keeps K fuel Valid (stop_running_entry K fuel) stop_running_entry-Valid woken
          asked_valid in
      settle-All (length killed.manager.containers) 0 killed (record {
        valid =
            over_table-keeps K fuel Valid (kill_entry K fuel) kill_entry-Valid rested ended_valid;
        quiet = tt;
        ahead = omega arith;
      })
