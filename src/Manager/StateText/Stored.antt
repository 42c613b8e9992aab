-- ===== src/Manager/StateText/Stored.antt =====
-- Containers whose fields the state file can hold, and the lines that `save_state` prints of them.
use mini_container.Prelude.{
  ℕ, ◌^◌, ◌+◌, ◌<◌, ◌≤◌, ◌≡◌, refl, Bool, true, false, List, [], ◌∷◌, ◌++◌, arith, All, All-append,
  ℤ, pos, is_empty_list, if◌then◌else◌,
}
use mini_container.Text.{Text, text, decimal, fgets_lines}
use mini_container.Text.Decimal.{decimal-All, length-decimal-long}
use mini_container.Text.Lines.{is_line, IsLine, is_line-digits, fgets_lines-flatten}
use mini_container.Config.{
  ContainerInfo, ContainerState, created, running, stopped, destroyed, unnamed,
}
use mini_container.Manager.StateText.{
  info_lines, table_lines, state_lines, state_text, state_number,
}

-- A number that is not negative and below the bound.
abbrev pub Fits : ℕ → ℤ → Type 0
Fits bound z = (n : ℕ) × (z ≡ pos n) × (n < bound)

-- A positive `int` as it is printed: what the program generates.
abbrev pub IsNumber : Text → Type 0
IsNumber id = (n : ℕ) × (id ≡ decimal (pos n)) × (0 < n) × (n < 2 ^ 31)

abbrev pub is_named : ContainerState → Bool
is_named s = elim s [ unnamed z ↦ false | _ ↦ true ]

-- What the lines of a container hold as it is.
pub record IsStored (c : ContainerInfo) : Type 0 where
  pub id : IsNumber c.id
  pub pid : Fits (2 ^ 31) c.pid
  pub state : is_named c.state ≡ true
  pub created_at : Fits (2 ^ 63) c.created_at
  pub started_at : Fits (2 ^ 63) c.started_at
  pub stopped_at : Fits (2 ^ 63) c.stopped_at

pub state_number-Fits :
    (state : ContainerState) → is_named state ≡ true → Fits (2 ^ 31) (state_number state)
state_number-Fits created e = (0, refl, omega arith)
state_number-Fits running e = (1, refl, omega arith)
state_number-Fits stopped e = (2, refl, omega arith)
state_number-Fits destroyed e = (3, refl, omega arith)
state_number-Fits (unnamed z) e = absurd (cc e)

-- A printed number and the tail of its line.
number_line :
    (z : ℤ) (k room : ℕ) (s : Text)
    → Fits (2 ^ 63) z
    → 19 + k ≤ room
    → is_line k s ≡ true
    → is_line room (decimal z ++ s) ≡ true
number_line z k room s (n, e, h) b l = rw e (
    is_line-digits (decimal (pos n)) s k room (decimal-All n)
      (omega (arith, length-decimal-long n h)) l)

int-Fits : (z : ℤ) → Fits (2 ^ 31) z → Fits (2 ^ 63) z
int-Fits z (n, e, h) = (n, e, omega arith)

info_lines-All :
    (c : ContainerInfo) (is_last : Bool) → IsStored c → All IsLine (info_lines c is_last)
unfolding info_lines text is_line
info_lines-All c is_last h =
    let (n, e, positive, below) = h.id in
    let last_line =
      elim is_last as (λ b. All IsLine ((if b then text "    }\n" else text "    },\n") ∷ [])) [
        | true ↦ (refl, tt)
        | false ↦ (refl, tt)
      ] in
    (
      refl,
      (
        rw e (number_line (pos n) 3 _ _ (n, refl, omega arith) (omega arith) refl),
        (
          number_line c.pid 2 _ _ (int-Fits c.pid h.pid) (omega arith) refl,
          (
            number_line (state_number c.state) 2 _ _
                (int-Fits _ (state_number-Fits c.state h.state)) (omega arith) refl,
            (
              number_line c.created_at 2 _ _ h.created_at (omega arith) refl,
              (
                number_line c.started_at 2 _ _ h.started_at (omega arith) refl,
                (number_line c.stopped_at 1 _ _ h.stopped_at (omega arith) refl, last_line),
              ),
            ),
          ),
        ),
      ),
    )

table_lines-All : (cs : List ContainerInfo) → All IsStored cs → All IsLine (table_lines cs)
unfolding table_lines
table_lines-All [] h = tt
table_lines-All (c ∷ cs) (h, hs) =
    All-append IsLine (info_lines c (is_empty_list cs)) (table_lines cs)
      (info_lines-All c (is_empty_list cs) h) (table_lines-All cs hs)

-- `fgets` reads the lines of the state file as they were printed.
pub fgets_lines-state_text :
    (cs : List ContainerInfo)
    → All IsStored cs
    → fgets_lines 1022 1022 [] (state_text cs) ≡ state_lines cs
unfolding state_text state_lines text is_line
fgets_lines-state_text cs h = fgets_lines-flatten (state_lines cs) (
  refl,
  (
    refl,
    All-append IsLine (table_lines cs) (text "  ]\n" ∷ text "}\n" ∷ []) (table_lines-All cs h)
        (refl, (refl, tt)),
  ),
)
