-- ===== src/Manager/Removal.antt =====
-- `container_manager_destroy` by an identifier, and by a process number.
use mathlib.Core.Path.{subst}
use mini_container.Prelude.{
  ℕ, ◌≡◌, refl, ap, sym, ◌∙◌, ◌≢◌, inl, inr, fun_ext, List, Option, none, some, Bool-cases, arith,
  get_elem?,
}
use mathlib.Core.Option.{some-injective}
use mini_container.Text.{Text, text_eq, text_eq_iff}
use mini_container.Kernel.{Kernel}
use mini_container.Config.{ContainerInfo, ContainerManager, is_running}
use mini_container.Manager.Table.{Sys, find_container, container_manager_get_info}
use mini_container.Manager.Table.Lookup.{info_of, find_container-info_of}
use mini_container.Manager.Table.Updates.{none-info_of-modify}
use mini_container.Manager.Lifecycle.{Fuel, container_manager_stop, container_manager_destroy}
use mini_container.Manager.Lifecycle.Starting.{halted}
use mini_container.Manager.Lifecycle.Stopping.{
  Stops, Halts, container_manager_stop-Stops, destroy_found, destroy_idle, destroy_running,
}
use mini_container.Manager.Validity.{IsValid, Halts-IsValid, find-none→info_of, stop-IsValid}
use mini_container.Manager.Spec.{view, put, view-rewritten, view-removed, view-found, points}

-- An identifier that the table has is found as such.
pub get_info-of-view :
    (cs : List ContainerInfo) (id : Text) (c : ContainerInfo)
    → info_of cs id ≡ some c
    → (i : ℕ) × (container_manager_get_info cs id ≡ some (i, c)) × (c.id ≡ id)
unfolding container_manager_get_info
get_info-of-view cs id c e = elim (find_container-info_of cs id) [
  | inl (missing, empty) ↦ absurd (cc (sym empty ∙ e))
  | inr (i, d, found, held, named, at) ↦
      let same = some-injective d c (sym held ∙ e) in
      (i, ground arith, subst (λ x. x.id ≡ id) same named)
]

pub put-put :
    (v : Text → Option ContainerInfo) (id other : Text) (o : Option ContainerInfo)
    → other ≡ id
    → put (put v other o) id none ≡ put v id none
put-put v id other o e = fun_ext λ x. ground (arith, ap (λ y. text_eq y x) e)

module _ (K : Kernel) (fuel : Fuel) (s : Sys K) (valid : IsValid s.manager) where
  pub view-stop :
      (c : ContainerInfo)
      → view s.manager c.id ≡ some c
      → (o : Option ContainerInfo) × (view (container_manager_stop K fuel c.id s).1.manager
          ≡ put (view s.manager) c.id o)
  view-stop c held =
      let (i, found, named) = get_info-of-view s.manager.containers c.id c held in
      from i (points s.manager.containers c.id i c found) (
        subst (λ f. Stops K fuel s f (container_manager_stop K fuel c.id s)) found
          (container_manager_stop-Stops K fuel s c.id))
    where
      from :
          (i : ℕ)
          → get_elem? s.manager.containers i ≡ some c
          → Stops K fuel s (some (i, c)) (container_manager_stop K fuel c.id s)
          → (o : Option ContainerInfo) × (view (container_manager_stop K fuel c.id s).1.manager
              ≡ put (view s.manager) c.id o)
      from i at (inl (off, r, e)) = (
        some c,
        ap (λ t. view t.manager) e ∙ fun_ext λ x. ground (arith, text_eq_iff c.id x, held),
      )
      from i at (inr (now, told, on, r, e)) = (
        some (halted now c),
        ap view e ∙ view-rewritten s.manager (halted now) i c (λ b. refl) at valid,
      )

  -- In a valid table, `container_manager_destroy` by the identifier of a container returns 0 and
  -- removes that container, running or not, and nothing else.
  pub container_manager_destroy-view :
      (id : Text) (c : ContainerInfo)
      → view s.manager id ≡ some c
      → ((container_manager_destroy K fuel id s).0 ≡ some tt)
        × (view (container_manager_destroy K fuel id s).1.manager ≡ put (view s.manager) id none)
  container_manager_destroy-view id c held =
      let (i, found, named) = get_info-of-view s.manager.containers id c held in
      elim (Bool-cases (is_running c.state)) [
        | inl on ↦
            let (ok, e) = destroy_running K fuel s id i c found on in
            let (o, stopped) = view-stop c (ap (view s.manager) named ∙ held) in
            (
              ok,
              ap view e
                  ∙ view-removed _ id (stop-IsValid K fuel c.id s valid)
                  ∙ ap (λ v. put v id none) stopped
                  ∙ put-put (view s.manager) id c.id o named,
            )
        | inr off ↦
            let (ok, e) = destroy_idle K fuel s id i c found off in
            (ok, ap view e ∙ view-removed s.manager id valid)
      ]

  pub Halts-keeps :
      (m : ContainerManager) (id : Text)
      → Halts s.manager m
      → view m id ≡ none
      → view s.manager id ≡ none
  Halts-keeps m id (inl e) h = ap (λ n. view n id) (sym e) ∙ h
  Halts-keeps m id (inr (i, now, e)) h =
      none-info_of-modify (halted now) (λ b. refl) s.manager.containers i id
        (ap (λ n. view n id) (sym e) ∙ h)

  -- By a process number that is no identifier, `container_manager_destroy` returns 0 and leaves the
  -- container that it found in the table: `remove_container` looks for the number as an identifier.
  pub destroy_by_pid :
      (id : Text) (i : ℕ) (c : ContainerInfo)
      → find_container s.manager.containers id ≡ none
      → container_manager_get_info s.manager.containers id ≡ some (i, c)
      → ((container_manager_destroy K fuel id s).0 ≡ some tt)
        × (view (container_manager_destroy K fuel id s).1.manager c.id ≢ none)
  destroy_by_pid id i c unknown found =
      let (m, halts, ok, e) = destroy_found K fuel s id i c found in
      let held = view-found s.manager i c (points s.manager.containers id i c found) valid in
      let absent = find-none→info_of s.manager.containers id unknown in
      let after =
        ap (λ n. view n c.id) e
        ∙ ap (λ v. v c.id) (view-removed m id (Halts-IsValid halts valid)) in
      (
        ok,
        λ gone. cc (
          Halts-keeps m c.id halts (ground (arith, gone, after, text_eq_iff id c.id, held, absent)),
          held,
        ),
      )
