-- ===== src/Manager/StateFile/Live.antt =====
-- What `load_state` of src/container_manager.cpp adds of the containers that `save_state` prints:
-- those that are CREATED or RUNNING.
use mini_container.Prelude.{
  ℕ, ◌≡◌, refl, true, false, [], ◌∷◌, ◌++◌, arith, pos, length, ◌+◌, sym, ap, ◌∙◌, Bool, List, none,
  some, if◌then◌else◌, eqℤ, not, ◌&&◌, succeeds, is_some, ◌⊎◌, inl, inr, Bool-cases,
}
use mini_container.Text.{Text, is_empty}
use mini_container.Kernel.{Kernel}
use mini_container.Manager.Table.{Sys, add_container}
use mini_container.Manager.StateText.{Loader, state_number, state_of_number, fresh_loader}
use mini_container.Manager.StateFile.{
  loaded_info, loaded_id, add_loaded, check_alive, finish_container,
}
use mathlib.Core.List.{append-nil}
use mini_container.Config.{
  ContainerInfo, ContainerState, created, running, stopped, destroyed, unnamed,
}
use mini_container.Process.{is_pid_alive}
use mini_container.Manager.Table.Ids.{extract_numeric_id-decimal}
use mini_container.Manager.Lifecycle.Frame.{added}
use mini_container.Manager.StateText.Stored.{IsStored, IsNumber, is_named}
use mini_container.Manager.StateText.Fields.{is_empty-decimal}
use mini_container.Manager.StateFile.Rounds.{printed}

abbrev pub is_live : ContainerState → Bool
is_live s = elim s [ created ↦ true | running ↦ true | _ ↦ false ]

abbrev pub without_config : ContainerInfo → ContainerInfo
without_config c = record c { saved_config = none }

unfoldable pub live_one : ContainerInfo → List ContainerInfo
live_one c = if is_live c.state then without_config c ∷ [] else []

-- The containers that are CREATED or RUNNING, without their configurations.
unfoldable pub live_ones : List ContainerInfo → List ContainerInfo
unfolding live_one
live_ones [] = []
live_ones (c ∷ cs) = live_one c ++ live_ones cs

-- A container that is RUNNING has a process.
abbrev pub HasProcess : (K : Kernel) → ContainerInfo → Type 0
HasProcess K c = c.state ≡ running → (w : K.World) → (is_pid_alive K c.pid w).0 ≡ true

state_of_number-state_number :
    (state : ContainerState) → is_named state ≡ true → state_of_number (state_number state) ≡ state
state_of_number-state_number created e = refl
state_of_number-state_number running e = refl
state_of_number-state_number stopped e = refl
state_of_number-state_number destroyed e = refl
state_of_number-state_number (unnamed z) e = absurd (cc e)

running_number :
    (state : ContainerState)
    → is_named state ≡ true
    → eqℤ (state_number state) (pos 1) ≡ true
    → state ≡ running
running_number created h e = absurd (cc e)
running_number running h e = refl
running_number stopped h e = absurd (cc e)
running_number destroyed h e = absurd (cc e)
running_number (unnamed z) h e = absurd (cc h)

named-cases :
    (state : ContainerState)
    → is_named state ≡ true
    → ((is_live state ≡ true)
        × (eqℤ (state_number state) (pos 2) ≡ false)
        × (eqℤ (state_number state) (pos 3) ≡ false))
      ⊎ ((is_live state ≡ false)
          × (not (eqℤ (state_number state) (pos 3)) && not (eqℤ (state_number state) (pos 2))
              ≡ false))
named-cases created h = inl (refl, refl, refl)
named-cases running h = inl (refl, refl, refl)
named-cases stopped h = inr (refl, refl)
named-cases destroyed h = inr (refl, refl)
named-cases (unnamed z) h = absurd (cc h)

IsNumber-is_empty : (id : Text) → IsNumber id → is_empty id ≡ false
IsNumber-is_empty id (n, e, _, _) = rw e (is_empty-decimal n)

-- An identifier that is a number is kept.
loaded_id-IsNumber : (cs : List ContainerInfo) (id : Text) → IsNumber id → loaded_id cs id ≡ id
unfolding loaded_id
loaded_id-IsNumber cs id (n, e, positive, below) =
    rw (e, extract_numeric_id-decimal n positive below) refl

loaded_info-printed :
    (cs : List ContainerInfo) (c : ContainerInfo) (k : ℕ)
    → IsStored c
    → loaded_info cs (printed c k) ≡ without_config c
loaded_info-printed cs c k h =
    rw (loaded_id-IsNumber cs c.id h.id, state_of_number-state_number c.state h.state) refl

module _ (K : Kernel) (allocates : (w : K.World) → (K.alloc w).0 ≡ true) where
  add_container-added :
      (info : ContainerInfo) (s : Sys K)
      → ((add_container K info s).0 ≡ some tt)
        × ((add_container K info s).1.manager ≡ added s.manager info)
  unfolding add_container
  add_container-added info s = ground (arith, allocates s.world)

  pub add_loaded-added :
      (l : Loader) (s : Sys K)
      → ((add_loaded K l s).0 ≡ some tt)
        × ((add_loaded K l s).1.manager ≡ added s.manager (loaded_info s.manager.containers l))
  unfolding add_loaded
  add_loaded-added l s = rw (allocates s.world) (
      add_container-added (loaded_info s.manager.containers l)
        (record s { world = (K.alloc (K.alloc s.world).1).1 }))

  module _ (l l' : Loader) (s : Sys K) (w : K.World) (checked : check_alive K l s.world ≡ (l', w))
      (named : is_empty l.container_id ≡ false) where
    adding :
        eqℤ l'.state (pos 2) ≡ false
        → eqℤ l'.state (pos 3) ≡ false
        → finish_container K (l, s) ≡ (
            let (added, s'') = succeeds (add_loaded K l') (record s { world = w }) in
            (fresh_loader (if added then l.loaded + 1 else l.loaded), s''))
    unfolding finish_container
    adding h k = rw (finish_container, checked, named, h, k) refl

    pub finish_container-adds :
        eqℤ l'.state (pos 2) ≡ false
        → eqℤ l'.state (pos 3) ≡ false
        → finish_container K (l, s)
          ≡ (fresh_loader (l.loaded + 1), (add_loaded K l' (record s { world = w })).1)
    finish_container-adds h k =
        adding h k
        ∙ ap
            (λ r. (
              fresh_loader (if is_some r then l.loaded + 1 else l.loaded),
              (add_loaded K l' (record s { world = w })).1,
            ))
            (add_loaded-added l' (record s { world = w })).0

    finish_container-skips :
        not (eqℤ l'.state (pos 3)) && not (eqℤ l'.state (pos 2)) ≡ false
        → finish_container K (l, s) ≡ (fresh_loader l.loaded, record s { world = w })
    unfolding finish_container
    finish_container-skips h = rw (finish_container, checked, named, h) refl

  -- A process that is there leaves its container RUNNING.
  check_alive-printed :
      (c : ContainerInfo) (k : ℕ) (w : K.World)
      → is_named c.state ≡ true
      → HasProcess K c
      → (w' : K.World) × (check_alive K (printed c k) w ≡ (printed c k, w'))
  unfolding check_alive
  check_alive-printed c k w named alive = elim (Bool-cases (eqℤ (state_number c.state) (pos 1))) [
    | inl e ↦ (
      (is_pid_alive K c.pid w).1,
      rw (check_alive, e, alive (running_number c.state named e) w) refl,
    )
    | inr e ↦ (w, rw (check_alive, e) refl)
  ]

  -- The end of a container adds it, if it is CREATED or RUNNING.
  pub finish_container-printed :
      (c : ContainerInfo) (k : ℕ) (s : Sys K)
      → IsStored c
      → HasProcess K c
      → (s' : Sys K) × (finish_container K (printed c k, s)
          ≡ (fresh_loader (k + length (live_one c)), s'))
        × (s'.manager.containers ≡ s.manager.containers ++ live_one c)
  unfolding live_one
  finish_container-printed c k s h alive =
      let (w, checked) = check_alive-printed c k s.world h.state alive in
      let s' = record s { world = w } in
      let named = IsNumber-is_empty c.id h.id in
      elim (named-cases c.state h.state) [
        | inl (live, stays, there) ↦ (
          (add_loaded K (printed c k) s').1,
          rw live (finish_container-adds (printed c k) (printed c k) s w checked named stays there),
          rw live (
              ap (λ m. m.containers) (add_loaded-added (printed c k) s').1
              ∙ ap (λ info. s.manager.containers ++ (info ∷ []))
                  (loaded_info-printed s.manager.containers c k h)),
        )
        | inr (ended, gone) ↦ (
          s',
          rw ended (
              finish_container-skips (printed c k) (printed c k) s w checked named gone
              ∙ ap (λ n. (fresh_loader n, s')) (omega arith)),
          rw ended (sym (append-nil s.manager.containers)),
        )
      ]
