-- ===== src/Manager/StateText.antt =====
-- The text of the state file of src/container_manager.cpp: the lines that `save_state` prints, and
-- what `load_state` reads of a line.
pub mod Fields
pub mod Stored
use mathlib.Core.List.{flatten}
use mini_container.Prelude.{
  ℕ, zero, suc, ◌+◌, Bool, true, false, not, ◌&&◌, ◌||◌, List, [], ◌∷◌, ◌++◌, Option, none, some,
  is_empty_list, if◌then◌else◌, ◌==◌, ℤ, pos, eqℤ,
}
use mini_container.Text.{
  Text, text, decimal, contains, strip_prefix, is_empty, skip_space, scan_int, scan_long,
}
use mini_container.Config.{
  ContainerInfo, ContainerState, created, running, stopped, destroyed, unnamed,
}

-- The number of an enumerator, and `static_cast<container_state_t>`.
abbrev pub state_number : ContainerState → ℤ
state_number created = pos 0
state_number running = pos 1
state_number stopped = pos 2
state_number destroyed = pos 3
state_number (unnamed z) = z

abbrev pub state_of_number : ℤ → ContainerState
state_of_number z =
    if eqℤ z (pos 0)
    then created
    else if eqℤ z (pos 1)
    then running
    else if eqℤ z (pos 2)
    then stopped
    else if eqℤ z (pos 3)
    then destroyed
    else unnamed z

-- The lines of one container, with what `fgets` reads back as a line each.
unfoldable pub info_lines : ContainerInfo → Bool → List Text
info_lines c is_last =
    text "    {\n"
    ∷ (text "      \"id\": \"" ++ (c.id ++ text "\",\n"))
    ∷ (text "      \"pid\": " ++ (decimal c.pid ++ text ",\n"))
    ∷ (text "      \"state\": " ++ (decimal (state_number c.state) ++ text ",\n"))
    ∷ (text "      \"created_at\": " ++ (decimal c.created_at ++ text ",\n"))
    ∷ (text "      \"started_at\": " ++ (decimal c.started_at ++ text ",\n"))
    ∷ (text "      \"stopped_at\": " ++ (decimal c.stopped_at ++ text "\n"))
    ∷ (if is_last then text "    }\n" else text "    },\n")
    ∷ []

unfoldable pub table_lines : List ContainerInfo → List Text
unfolding info_lines
table_lines [] = []
table_lines (c ∷ cs) = info_lines c (is_empty_list cs) ++ table_lines cs

unfoldable pub state_lines : List ContainerInfo → List Text
unfolding table_lines
state_lines cs =
    text "{\n" ∷ text "  \"containers\": [\n" ∷ (table_lines cs ++ (text "  ]\n" ∷ text "}\n" ∷ []))

-- The file that `save_state` prints.
unfoldable pub state_text : List ContainerInfo → Text
unfolding state_lines
state_text cs = flatten (state_lines cs)

-- The variables of the loop of `load_state`. `state` is the number read.
pub record Loader : Type 0 where
  pub container_id : Text
  pub pid : ℤ
  pub state : ℤ
  pub created_at : ℤ
  pub started_at : ℤ
  pub stopped_at : ℤ
  pub in_container : Bool
  pub loaded : ℕ

abbrev pub fresh_loader : ℕ → Loader
fresh_loader loaded = record {
  container_id = [];
  pid = pos 0;
  state = pos 0;
  created_at = pos 0;
  started_at = pos 0;
  stopped_at = pos 0;
  in_container = false;
  loaded = loaded;
}

-- The bytes of `%255[^"]`: at most 255, none of them a quote.
quoted : ℕ → Text → Text
quoted zero s = []
quoted (suc n) [] = []
quoted (suc n) (c ∷ s) = if c == 34 then [] else c ∷ quoted n s

-- sscanf(p, " \"id\": \"%255[^\"]\"", container_id); what does not match leaves the variable alone.
unfoldable pub scan_id : Text → Text → Text
unfolding quoted
scan_id p old = elim (strip_prefix (skip_space p) (text "\"id\":")) [
  | none ↦ old
  | some s ↦ elim (strip_prefix (skip_space s) (text "\"")) [
    | none ↦ old
    | some t ↦ let id = quoted 255 t in if is_empty id then old else id
  ]
]

-- sscanf(p, " \"name\": %d", &n), with the conversion as an argument.
unfoldable pub scan_field : (Text → Option (ℤ × Text)) → Text → Text → ℤ → ℤ
scan_field conversion name p old = elim (strip_prefix (skip_space p) (name ++ text ":")) [
  | none ↦ old
  | some s ↦ elim (conversion s) [ none ↦ old | some (z, rest) ↦ z ]
]

-- The leading spaces and tabs of a line.
unfoldable pub skip_blank : Text → Text
skip_blank [] = []
skip_blank (c ∷ s) = if c == 32 || c == 9 then skip_blank s else c ∷ s

-- A line that begins with a newline, `{`, `[`, `]`, or is empty, is passed over.
abbrev pub is_skipped : Text → Bool
is_skipped [] = true
is_skipped (c ∷ s) = c == 10 || (c == b'{' || (c == b'[' || c == b']'))

-- The chain of tests on a line.
unfoldable pub read_fields : Text → Loader → Loader
unfolding scan_id scan_field
read_fields p l =
    if contains p (text "\"id\"")
    then record l { in_container = true; container_id = scan_id p l.container_id }
    else if l.in_container && contains p (text "\"pid\"")
    then record l { pid = scan_field scan_int (text "\"pid\"") p l.pid }
    else if l.in_container && contains p (text "\"state\"")
    then record l { state = scan_field scan_int (text "\"state\"") p l.state }
    else if l.in_container && contains p (text "\"created_at\"")
    then record l { created_at = scan_field scan_long (text "\"created_at\"") p l.created_at }
    else if l.in_container && contains p (text "\"started_at\"")
    then record l { started_at = scan_field scan_long (text "\"started_at\"") p l.started_at }
    else if l.in_container && contains p (text "\"stopped_at\"")
    then record l { stopped_at = scan_field scan_long (text "\"stopped_at\"") p l.stopped_at }
    else l
