-- ===== src/Web/System.antt =====
-- The memory and the CPU of the system, as `SimpleWebServer::getSystemInfoJSON` reports them.
use mini_container.Prelude.{
  ℕ, zero, suc, ◌+◌, ◌*◌, ◌%◌, ◌^◌, Bool, true, false, [], ◌∷◌, List, ◌++◌, Option, none, some, ltb,
  ◌==◌, if◌then◌else◌, Exec, pos,
}
use mini_container.Text.{
  Text, text, decimal, starts_with, skip_space, scan_digits, starts_digit, sign, clamp_ulong,
}
use mini_container.Kernel.{Kernel}
use mini_container.Web.Request.{next_word}
use mini_container.Web.Quota.{stoul, first_line}
use mini_container.Doubles.{Doubles}
use mini_container.Web.Containers.{minus_ulong}

-- What `std::getline` reads until it fails.
unfoldable pub getline_lines : Text → List Text
getline_lines [] = []
getline_lines (c ∷ s) =
    let rest = getline_lines s in
    if c == 10
    then [] ∷ rest
    else elim rest [ [] ↦ (c ∷ []) ∷ [] | line ∷ lines ↦ (c ∷ line) ∷ lines ]

unfoldable pub find_line : Text → List Text → Option Text
find_line label [] = none
find_line label (line ∷ lines) = if starts_with line label then some line else find_line label lines

-- The bytes that the second word of a line counts in kilobytes; none where `std::stoul` throws.
unfoldable pub kilobytes : Text → Option ℕ
unfolding next_word stoul
kilobytes line =
    let (label, rest) = next_word line in
    elim (stoul (next_word rest).0) [ none ↦ none | some kb ↦ some (kb * 1024 % 2 ^ 64) ]

unfoldable pub total_of : List Text → Option ℕ
unfolding find_line kilobytes
total_of lines = elim (find_line (text "MemTotal:") lines) [
  | none ↦ some 0
  | some line ↦ kilobytes line
]

unfoldable pub available_of : List Text → Option ℕ
unfolding find_line kilobytes
available_of lines = elim (find_line (text "MemAvailable:") lines) [
  | none ↦ elim (find_line (text "MemFree:") lines) [ none ↦ some 0 | some line ↦ kilobytes line ]
  | some line ↦ kilobytes line
]

-- `iss >> n`: the value that is stored, whether it was read, and what is behind it.
extract : Text → (ℕ × Bool) × Text
unfolding skip_space scan_digits
extract s =
    let (neg, t) = sign (skip_space s) in
    let (n, rest) = scan_digits 0 t in
    if starts_digit t then ((clamp_ulong neg n, ltb n (2 ^ 64)), rest) else ((0, false), s)

-- Variables read in turn; behind a failure they stay as they were, `unset`.
extract_all : ℕ → ℕ → Bool → Text → List ℕ
unfolding extract
extract_all unset zero ok s = []
extract_all unset (suc k) false s = unset ∷ extract_all unset k false s
extract_all unset (suc k) true s =
    let ((n, ok), rest) = extract s in n ∷ extract_all unset k ok rest

sum : List ℕ → ℕ
sum [] = 0
sum (n ∷ ns) = n + sum ns

-- The fourth and the fifth of the times.
idle_of : List ℕ → ℕ
idle_of (user ∷ nice ∷ system ∷ idle ∷ iowait ∷ rest) = idle + iowait
idle_of _ = 0

-- The static variables of `getSystemCPUPercent`.
pub record Ticks : Type 0 where
  pub prev_idle : ℕ
  pub prev_total : ℕ

unfoldable pub ticks_of : ℕ → Text → Ticks
unfolding extract_all sum idle_of next_word
ticks_of unset line =
    let times = extract_all unset 8 true (next_word line).1 in
    record { prev_idle = idle_of times % 2 ^ 64; prev_total = sum times % 2 ^ 64 }

module _ (F : Doubles) where
  open F use {Double}

  busy_share : ℕ → ℕ → Double
  busy_share idle_diff total_diff =
      F.mul (F.of_ulong 100)
        (F.sub (F.of_ulong 1) (F.div (F.of_ulong idle_diff) (F.of_ulong total_diff)))

  unfoldable pub cpu_percent_since : Ticks → Ticks → Double
  unfolding busy_share
  cpu_percent_since prev next =
      let total_diff = minus_ulong next.prev_total prev.prev_total in
      if ltb 0 prev.prev_total
      then (if ltb 0 total_diff
          then busy_share (minus_ulong next.prev_idle prev.prev_idle) total_diff
          else F.of_ulong 0)
      else F.of_ulong 0

  module _ (K : Kernel) (unset : ℕ) where
    open K use {World}

    memory_of : (List Text → Option ℕ) → World → Option ℕ × World
    unfolding getline_lines
    memory_of field w =
        let (contents, w') = K.read_text (text "/proc/meminfo") w in
        (elim contents [ none ↦ some 0 | some file ↦ field (getline_lines file) ], w')

    unfoldable pub get_system_total_memory : World → Option ℕ × World
    unfolding memory_of total_of
    get_system_total_memory = memory_of total_of

    unfoldable pub get_system_available_memory : World → Option ℕ × World
    unfolding memory_of available_of
    get_system_available_memory = memory_of available_of

    percent_of : Ticks → Option Text → Double × Ticks
    unfolding first_line ticks_of
    percent_of prev none = (F.of_ulong 0, prev)
    percent_of prev (some file) =
        let line = first_line file in
        let next = ticks_of unset line in
        if starts_with line (text "cpu ")
        then (cpu_percent_since prev next, next)
        else (F.of_ulong 0, prev)

    unfoldable pub get_system_cpu_percent : Ticks × World → Double × (Ticks × World)
    unfolding percent_of
    get_system_cpu_percent (prev, w) =
        let (contents, w') = K.read_text (text "/proc/stat") w in
        let (percent, next) = percent_of prev contents in (percent, (next, w'))

    system_text : ℕ → ℕ → Double → Text
    system_text used total percent =
        text "{\"used_memory\":"
        ++ (decimal (pos used)
            ++ (text ",\"total_memory\":"
                ++ (decimal (pos total)
                    ++ (text ",\"cpu_percent\":" ++ (F.to_string percent ++ text "}")))))

    info_json : Option ℕ → Option ℕ → Exec (Ticks × World) Text
    unfolding system_text
    info_json none available s = (none, s)
    info_json (some total) none s = (none, s)
    info_json (some total) (some available) s =
        let (percent, s') = get_system_cpu_percent s in
        (some (system_text (minus_ulong total available) total percent), s')

    unfoldable pub system_info_json : Exec (Ticks × World) Text
    unfolding info_json
    system_info_json (prev, w) =
        let (total, w1) = get_system_total_memory w in
        let (available, w2) = get_system_available_memory w1 in info_json total available (prev, w2)
