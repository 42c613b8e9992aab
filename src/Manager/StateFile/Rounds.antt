-- ===== src/Manager/StateFile/Rounds.antt =====
-- The rounds of the loop of `load_state` in src/container_manager.cpp over the lines that
-- `save_state` prints.
use mini_container.Prelude.{
  ℕ, ◌^◌, ◌<◌, ◌≡◌, refl, true, false, [], ◌∷◌, ◌++◌, arith, pos, ap, ◌∙◌, Bool, List,
  if◌then◌else◌,
}
use mini_container.Text.{Text, text, decimal, contains, starts_with}
use mini_container.Kernel.{Kernel}
use mini_container.Manager.Table.{Sys}
use mini_container.Manager.StateText.{
  Loader, read_fields, skip_blank, info_lines, state_number, fresh_loader,
}
use mini_container.Manager.StateFile.{load_line, finish_container}
use mini_container.Config.{ContainerInfo}
use mini_container.Process.{each}
use mini_container.Manager.StateText.Stored.{IsStored, state_number-Fits}
use mini_container.Manager.StateText.Fields.{
  no_brace, comma, read_id, read_pid, read_state, read_created_at, read_started_at, read_stopped_at,
}

-- A field is read, and the loop goes on.
load_line-field :
    (K : Kernel) (p : Text) (l l' : Loader) (s : Sys K)
    → contains (34 ∷ p) (text "}") ≡ false
    → read_fields (34 ∷ p) l ≡ l'
    → load_line K (text "      " ++ (34 ∷ p)) (l, s) ≡ (l', s)
unfolding load_line skip_blank text
load_line-field K p l l' s e read = ground (arith, read)

-- The lines of a container's fields, each with its number.
module _ (K : Kernel) (l : Loader) (s : Sys K) (n : ℕ) where
  pub id_line :
      n < 2 ^ 31
      → load_line K (text "      \"id\": \"" ++ (decimal (pos n) ++ text "\",\n")) (l, s)
        ≡ (record l { in_container = true; container_id = decimal (pos n) }, s)
  unfolding text contains starts_with
  id_line h = load_line-field K _ l _ s (rw (no_brace n (34 ∷ comma) []) refl) (read_id l n h)

  module _ (inside : l.in_container ≡ true) where
    pub pid_line :
        n < 2 ^ 31
        → load_line K (text "      \"pid\": " ++ (decimal (pos n) ++ text ",\n")) (l, s)
          ≡ (record l { pid = pos n }, s)
    unfolding text contains starts_with
    pid_line h = load_line-field K _ l _ s (rw (no_brace n comma []) refl) (read_pid l n inside h)

    pub state_line :
        n < 2 ^ 31
        → load_line K (text "      \"state\": " ++ (decimal (pos n) ++ text ",\n")) (l, s)
          ≡ (record l { state = pos n }, s)
    unfolding text contains starts_with
    state_line h =
        load_line-field K _ l _ s (rw (no_brace n comma []) refl) (read_state l n inside h)

    pub created_at_line :
        n < 2 ^ 63
        → load_line K (text "      \"created_at\": " ++ (decimal (pos n) ++ text ",\n")) (l, s)
          ≡ (record l { created_at = pos n }, s)
    unfolding text contains starts_with
    created_at_line h =
        load_line-field K _ l _ s (rw (no_brace n comma []) refl) (read_created_at l n inside h)

    pub started_at_line :
        n < 2 ^ 63
        → load_line K (text "      \"started_at\": " ++ (decimal (pos n) ++ text ",\n")) (l, s)
          ≡ (record l { started_at = pos n }, s)
    unfolding text contains starts_with
    started_at_line h =
        load_line-field K _ l _ s (rw (no_brace n comma []) refl) (read_started_at l n inside h)

    pub stopped_at_line :
        n < 2 ^ 63
        → load_line K (text "      \"stopped_at\": " ++ (decimal (pos n) ++ text "\n")) (l, s)
          ≡ (record l { stopped_at = pos n }, s)
    unfolding text contains starts_with
    stopped_at_line h =
        load_line-field K _ l _ s (rw (no_brace n (10 ∷ []) []) refl) (read_stopped_at l n inside h)

-- What `load_state` takes a container to be that `save_state` has printed.
abbrev pub printed : ContainerInfo → ℕ → Loader
printed c loaded = record {
  container_id = c.id;
  pid = c.pid;
  state = state_number c.state;
  created_at = c.created_at;
  started_at = c.started_at;
  stopped_at = c.stopped_at;
  in_container = true;
  loaded = loaded;
}

module _ (K : Kernel) where
  -- One round of the loop.
  round :
      (line : Text) (lines : List Text) (x y : Loader × Sys K)
      → load_line K line x ≡ y
      → each (load_line K) (line ∷ lines) x ≡ each (load_line K) lines y
  unfolding each
  round line lines x y e = ap (each (load_line K) lines) e

  brace_line : (l : Loader) (s : Sys K) → load_line K (text "    {\n") (l, s) ≡ (l, s)
  unfolding load_line skip_blank text
  brace_line l s = refl

  last_line :
      (is_last : Bool) (l : Loader) (s : Sys K)
      → l.in_container ≡ true
      → load_line K (if is_last then text "    }\n" else text "    },\n") (l, s)
        ≡ finish_container K (l, s)
  unfolding load_line read_fields skip_blank text contains starts_with
  last_line true l s inside = rw inside refl
  last_line false l s inside = rw inside refl

  pub first_lines :
      (lines : List Text) (s : Sys K)
      → each (load_line K) (text "{\n" ∷ text "  \"containers\": [\n" ∷ lines) (fresh_loader 0, s)
        ≡ each (load_line K) lines (fresh_loader 0, s)
  unfolding each load_line read_fields skip_blank text contains starts_with
  first_lines lines s = refl

  pub last_lines :
      (k : ℕ) (s : Sys K)
      → each (load_line K) (text "  ]\n" ∷ text "}\n" ∷ []) (fresh_loader k, s)
        ≡ (fresh_loader k, s)
  unfolding each load_line read_fields skip_blank text contains starts_with
  last_lines k s = refl

  -- The lines of a container lead to its end.
  pub info_lines-round :
      (c : ContainerInfo) (is_last : Bool) (rest : List Text) (k : ℕ) (s : Sys K)
      → IsStored c
      → each (load_line K) (info_lines c is_last ++ rest) (fresh_loader k, s)
        ≡ each (load_line K) rest (finish_container K (printed c k, s))
  unfolding info_lines
  info_lines-round c is_last rest k s h =
      let (n, e, _, below) = h.id in
      let (p, pid, p_below) = h.pid in
      let (z, state, z_below) = state_number-Fits c.state h.state in
      let (t, created_at, t_below) = h.created_at in
      let (u, started_at, u_below) = h.started_at in
      let (v, stopped_at, v_below) = h.stopped_at in
      rw (e, pid, state, created_at, started_at, stopped_at)
        (round _ _ _ _ (brace_line (fresh_loader k) s)
          ∙ round _ _ _ _ (id_line K _ s n below)
          ∙ round _ _ _ _ (pid_line K _ s p refl p_below)
          ∙ round _ _ _ _ (state_line K _ s z refl z_below)
          ∙ round _ _ _ _ (created_at_line K _ s t refl t_below)
          ∙ round _ _ _ _ (started_at_line K _ s u refl u_below)
          ∙ round _ _ _ _ (stopped_at_line K _ s v refl v_below)
          ∙ round _ _ _ _ (last_line is_last _ s refl))
