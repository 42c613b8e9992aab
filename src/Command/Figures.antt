-- ===== src/Command/Figures.antt =====
-- The figures that src/main.cpp shows: `format_bytes` and `calculate_cpu_percent`.
use mini_container.Prelude.{
  ℕ, zero, suc, ◌+◌, ◌++◌, ◌∷◌, if◌then◌else◌, ℤ, pos, eqℤ, is_positive, to_ℕ, int_of_long, not,
}
use mini_container.Text.{Text, text, snprintf}
use mini_container.Kernel.{Kernel}
use mini_container.Doubles.{Doubles}
use mini_container.Command.Listing.{minus}

abbrev unit_name : ℕ → Text
unit_name zero = text "B"
unit_name (suc zero) = text "KB"
unit_name (suc (suc zero)) = text "MB"
unit_name (suc (suc (suc n))) = text "GB"

module _ (F : Doubles) where
  open F use {Double}

  abbrev pub kilo : Double
  kilo = F.of_ulong 1024

  -- The loop, with the number of units that are left.
  pub scale : ℕ → ℕ → Double → ℕ × Double
  scale zero unit size = (unit, size)
  scale (suc left) unit size =
      let rest = scale left (unit + 1) (F.div size kilo) in
      if not (F.less size kilo) then rest else (unit, size)

  unfoldable pub format_bytes : ℕ → Text
  unfolding scale
  format_bytes bytes =
      let (unit, size) = scale 3 0 (F.of_ulong bytes) in
      snprintf 64 (F.printed 2 size ++ (32 ∷ unit_name unit))

  abbrev pub hundred : Double
  hundred = F.of_ulong 100

  -- The share of all processors, 100 at most, of so many nanoseconds in so many seconds. `cores` is
  -- what `sysconf` returns.
  pub percent_of : ℤ → ℕ → ℕ → Double
  percent_of cores cpu_ns elapsed =
      let processors = int_of_long cores in
      let cpu_cores = if is_positive processors then to_ℕ processors else 1 in
      let cpu_seconds = F.div (F.of_ulong cpu_ns) (F.of_ulong 1000000000) in
      let percent =
        F.div (F.mul (F.div cpu_seconds (F.of_ulong elapsed)) hundred) (F.of_ulong cpu_cores) in
      if F.less hundred percent then hundred else percent

  unfoldable pub calculate_cpu_percent : (K : Kernel) → ℤ → ℕ → ℤ → K.World → Double × K.World
  unfolding percent_of
  calculate_cpu_percent K cores cpu_ns start_time w =
      let (now, w') = K.time w in
      let elapsed = minus now start_time in
      if eqℤ start_time (pos 0)
      then (F.of_ulong 0, w)
      else if not (is_positive elapsed)
      then (F.of_ulong 0, w')
      else (percent_of cores cpu_ns (to_ℕ elapsed), w')
