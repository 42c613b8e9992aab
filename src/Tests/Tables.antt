-- ===== src/Tests/Tables.antt =====
-- The table at concrete inputs.
use mini_container.Prelude.{◌≡◌, refl, List, [], ◌∷◌, none, some, arith, pos, int_of_long}
use mini_container.Text.{Text, decimal, strtol, snprintf}
use mini_container.Config.{ContainerInfo, created}
use mini_container.Manager.Table.{extract_numeric_id, max_numeric_id, next_id, find_container}
use mini_container.Manager.Table.Ids.{find_container-next_id}
use mini_container.Manager.History.{Call, run, stop, destroy}
use mini_container.Manager.Spec.{view}
use mini_container.Manager.Runs.{container_manager_run}
use mini_container.Manager.Runs.Outcome.{RunsOrNot, container_manager_run-RunsOrNot}
use mini_container.Manager.Validity.{IsValid}
use mini_container.Tests.Machine.{machine, fuel, at_start, config, empty_manager}

abbrev entry : Text → ContainerInfo
entry id = record {
  id = id;
  pid = pos 0;
  state = created;
  created_at = pos 1;
  started_at = pos 0;
  stopped_at = pos 0;
  saved_config = none;
}

abbrev table : List ContainerInfo
table = entry (b'7' ∷ []) ∷ entry (b'w' ∷ b'e' ∷ b'b' ∷ []) ∷ entry (b'3' ∷ []) ∷ []

table_max : max_numeric_id (pos 0) table ≡ pos 7
unfolding max_numeric_id extract_numeric_id strtol int_of_long
table_max = refl

table_next : next_id table ≡ b'8' ∷ []
unfolding next_id max_numeric_id extract_numeric_id strtol snprintf decimal int_of_long
table_next = refl

find_container-next_id_example : find_container table (next_id table) ≡ none
find_container-next_id_example = find_container-next_id table 7 table_max (omega arith)

abbrev calls : List Call
calls = run (some config) ∷ run (some config) ∷ stop (b'1' ∷ []) ∷ destroy (b'1' ∷ []) ∷ []

pub empty_manager-IsValid : IsValid empty_manager
empty_manager-IsValid = record { distinct = tt; fits = omega arith; room = omega arith }

container_manager_run-RunsOrNot_example :
    RunsOrNot machine fuel
      (view empty_manager)
      config
      (container_manager_run machine fuel (some config) at_start)
container_manager_run-RunsOrNot_example =
    container_manager_run-RunsOrNot machine fuel config at_start empty_manager-IsValid
