-- ===== src/Command/Form/Laws.antt =====
-- A container that is typed is run by a call of the container manager.
use mini_container.Command.Options.{Library}
use mini_container.Prelude.{refl, Option, none, some, Option-cases, inl, inr}
use mini_container.Text.{Text}
use mini_container.Kernel.{Kernel}
use mini_container.Manager.Lifecycle.{Fuel}
use mini_container.Manager.Runs.Laws.{Goes-same, run-Goes}
use mini_container.Manager.History.{IsGoing}
use mini_container.Command.Form.{
  Form, read_form, form_config, run_form, interactive_create_container,
}

module _ (K : Kernel) (fuel : Fuel) (lib : Library) where
  run_form-Goes : (form : Option Form) → IsGoing K (run_form K fuel lib form)
  unfolding run_form
  run_form-Goes none s v = Goes-same v refl
  run_form-Goes (some form) s v = elim (Option-cases (form_config K lib form s.world).0) [
    | inl e ↦ rw (e, run_form) (Goes-same v refl)
    | inr (config, e) ↦
        rw (e, run_form)
          (run-Goes K fuel (some config) (record s { world = (form_config K lib form s.world).1 })
            v)
  ]

  pub interactive_create_container-Goes :
      (typed : Text) → IsGoing K (interactive_create_container K fuel lib typed)
  unfolding interactive_create_container
  interactive_create_container-Goes typed = run_form-Goes (read_form typed)
