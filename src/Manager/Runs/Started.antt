-- ===== src/Manager/Runs/Started.antt =====
-- After the creation, `container_manager_run` starts the container or removes it.
use mathlib.Core.Path.{subst}
use mathlib.Core.Option.{some-injective}
use mini_container.Prelude.{
  ℕ, ◌≡◌, ◌≢◌, refl, ap, sym, ◌∙◌, ◌⊎◌, inl, inr, Option, none, some, Option-cases, arith,
  get_elem?, ℤ, minus_one,
}
use mini_container.Text.{Text}
use mini_container.Kernel.{Kernel}
use mini_container.Config.{ContainerConfig, ContainerInfo}
use mini_container.Manager.Table.{Sys, find_container}
use mini_container.Manager.Table.Lookup.{find_container-info_of}
use mini_container.Manager.Lifecycle.{Fuel, cloning, container_manager_destroy}
use mini_container.Manager.Lifecycle.Frame.{cloning-manager}
use mini_container.Manager.Lifecycle.Told.{IsTime, IsCloned, cloning-pid, cloning-IsCloned}
use mini_container.Manager.Validity.{IsValid}
use mini_container.Manager.Spec.{View, view, put, view-found, view-rewritten}
use mini_container.Manager.Removal.{container_manager_destroy-view}
use mini_container.Manager.Runs.{giving_up, start_new, start_saved, start_found}
use mini_container.Manager.Runs.Laws.{launched, start_new-fails, start_new-launches}

module _ (K : Kernel) (fuel : Fuel) where
  -- The container `id` is gone, or is `info` made RUNNING.
  abbrev pub Ends : View → Text → ContainerInfo → Option (Unit {0}) × Sys K → Type 0
  Ends v id info r =
      ((r.0 ≡ none) × (view r.1.manager ≡ put v id none))
      ⊎ ((pid : ℤ) × (now : ℤ) × (config : ContainerConfig) × (info.saved_config ≡ some config)
          × IsCloned K config pid
          × IsTime K now
          × (r.0 ≡ some tt)
          × (pid ≢ minus_one)
          × (view r.1.manager ≡ put v id (some (launched pid now info))))

  giving_up-none : (id : Text) (s : Sys K) → (giving_up K fuel id s).0 ≡ none
  unfolding giving_up
  giving_up-none id s = refl

  giving_up-manager :
      (id : Text) (s : Sys K)
      → (giving_up K fuel id s).1.manager ≡ (container_manager_destroy K fuel id s).1.manager
  unfolding giving_up
  giving_up-manager id s = refl

  giving_up-Ends :
      (id : Text) (s : Sys K) (v : IsValid s.manager) (info : ContainerInfo)
      → view s.manager id ≡ some info
      → Ends (view s.manager) id info (giving_up K fuel id s)
  giving_up-Ends id s v info held = inl (
    giving_up-none id s,
    ap view (giving_up-manager id s) ∙ (container_manager_destroy-view K fuel s v id info held).1,
  )

  start_new-succeeds :
      (id : Text) (i : ℕ) (saved : ContainerConfig) (s : Sys K) (pid : ℤ)
      → (cloning K fuel id saved s).0 ≡ some pid
      → (start_new K fuel id i saved s).0 ≡ some tt
  unfolding start_new
  start_new-succeeds id i saved s pid e = ground arith

  start_new-Ends :
      (id : Text) (s : Sys K) (v : IsValid s.manager) (i : ℕ) (c : ContainerInfo)
      → get_elem? s.manager.containers i ≡ some c
      → c.id ≡ id
      → (saved : ContainerConfig) → c.saved_config ≡ some saved
      → Ends (view s.manager) id c (start_new K fuel id i saved s)
  start_new-Ends id s v i c at named saved has = elim (Option-cases (cloning K fuel id saved s).0) [
    | inl e ↦
        let t = (cloning K fuel id saved s).1 in
        let same = cloning-manager K fuel s id saved in
        let held = ap (view s.manager) (sym named) ∙ view-found s.manager i c at v in
        rw (start_new-fails K fuel id i saved s e) (
          subst (λ m. Ends (view m) id c (giving_up K fuel id t)) same
            (giving_up-Ends id t (subst IsValid (sym same) v) c (ap (λ m. view m id) same ∙ held)))
    | inr (pid, e) ↦
        let now = (K.time (cloning K fuel id saved s).1.world).0 in
        inr (
          pid,
          now,
          saved,
          has,
          cloning-IsCloned K fuel id saved s e,
          ((cloning K fuel id saved s).1.world, refl),
          start_new-succeeds id i saved s pid e,
          cloning-pid K fuel id saved s e,
          ap view (start_new-launches K fuel id i saved s pid e)
              ∙ view-rewritten s.manager (launched pid now) i c (λ b. refl) at v
              ∙ ap (λ x. put (view s.manager) x (some (launched pid now c))) named,
        )
  ]

  start_saved-Ends :
      (id : Text) (s : Sys K) (v : IsValid s.manager) (i : ℕ) (c : ContainerInfo)
      → get_elem? s.manager.containers i ≡ some c
      → c.id ≡ id
      → (o : Option ContainerConfig) → c.saved_config ≡ o
      → Ends (view s.manager) id c (start_saved K fuel id i o s)
  unfolding start_saved
  start_saved-Ends id s v i c at named none has =
      giving_up-Ends id s v c (ap (view s.manager) (sym named) ∙ view-found s.manager i c at v)
  start_saved-Ends id s v i c at named (some saved) kept = elim (Option-cases saved.command) [
    | inl missing ↦
        let held = ap (view s.manager) (sym named) ∙ view-found s.manager i c at v in
        rw (missing, start_saved) (giving_up-Ends id s v c held)
    | inr (command, has) ↦ rw (has, start_saved) (start_new-Ends id s v i c at named saved kept)
  ]

  pub start_found-Ends :
      (id : Text) (s : Sys K) (info : ContainerInfo)
      → IsValid s.manager
      → view s.manager id ≡ some info
      → Ends
          (view s.manager)
          id
          info
          (start_found K fuel id (find_container s.manager.containers id) s)
  unfolding start_found
  start_found-Ends id s info v has = elim (find_container-info_of s.manager.containers id) [
    | inl (missing, empty) ↦ absurd (cc (sym empty ∙ has))
    | inr (i, c, found, held, named, at) ↦
        let same = some-injective c info (sym held ∙ has) in
        rw (found, start_found)
          (subst (λ b. Ends (view s.manager) id b (start_saved K fuel id i c.saved_config s)) same
            (start_saved-Ends id s v i c at named c.saved_config refl))
  ]
