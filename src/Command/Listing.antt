-- ===== src/Command/Listing.antt =====
-- What src/main.cpp prints of containers: the list, the details of one, the run time.
use mini_container.Prelude.{
  ℕ, zero, suc, ◌-◌, ◌+◌, ◌%◌, ◌||◌, List, [], ◌∷◌, ◌++◌, none, some, leb, ltb, length,
  if◌then◌else◌, ℤ, pos, negsuc, eqℤ, is_positive, int_of_long,
}
use mini_container.Text.{Text, text, decimal, decimal_nat, snprintf}
use mini_container.Kernel.{Kernel}
use mini_container.Config.{
  ContainerInfo, ContainerState, created, running, stopped, destroyed, unnamed, is_destroyed,
  is_running, ResourceManager,
}
use mini_container.Resource.Limits.{div_int}
use mini_container.Resource.Stats.{resource_manager_get_stats}
use mini_container.Command.Options.{Library}

unfoldable pub safe_state_name : ContainerState → Text
safe_state_name created = text "CREATED"
safe_state_name running = text "RUNNING"
safe_state_name stopped = text "STOPPED"
safe_state_name destroyed = text "DESTROYED"
safe_state_name (unnamed z) = text "UNKNOWN"

-- The entries that are not DESTROYED.
unfoldable pub active_containers : List ContainerInfo → List ContainerInfo
active_containers [] = []
active_containers (c ∷ cs) =
    if is_destroyed c.state then active_containers cs else c ∷ active_containers cs

spaces : ℕ → Text
spaces zero = []
spaces (suc n) = 32 ∷ spaces n

-- "%-<width>s"
unfoldable pub pad_right : ℕ → Text → Text
unfolding spaces
pad_right width s = s ++ spaces (width - length s)

-- The time of day in a buffer of 20 bytes, empty for a time that is not set.
abbrev pub clock : Library → ℤ → Text
clock lib t = if is_positive t then (elim (lib.hms t) [ none ↦ [] | some s ↦ s ]) else []

abbrev columns : Text → Text → Text → Text → Text → Text
columns id state pid made started =
    pad_right 20 id
    ++ (text " "
        ++ (pad_right 10 state
            ++ (text " "
                ++ (pad_right 10 pid
                    ++ (text " "
                        ++ (pad_right 15 made
                            ++ (text " " ++ (pad_right 15 started ++ text "\n"))))))))

unfoldable pub list_row : Library → ContainerInfo → Text
unfolding pad_right safe_state_name
list_row lib info =
    columns info.id (safe_state_name info.state) (decimal info.pid) (clock lib info.created_at)
      (clock lib info.started_at)

unfoldable pub list_rows : Library → List ContainerInfo → Text
unfolding list_row
list_rows lib [] = []
list_rows lib (c ∷ cs) = list_row lib c ++ list_rows lib cs

-- The output of `handle_list`, which always returns EXIT_SUCCESS.
unfoldable pub handle_list : Library → List ContainerInfo → Text
unfolding active_containers list_rows
handle_list lib cs = elim (active_containers cs) [
  | [] ↦
      text "No containers\n"
      ++ (text "\nTo create a container, use:\n"
          ++ (text "  ./mini-container run /bin/sh -c \"while true; do :; done\"\n"
              ++ text "  or use interactive menu: ./mini-container\n"))
  | c ∷ rest ↦
      columns (text "CONTAINER ID") (text "STATE") (text "PID") (text "CREATED") (text "STARTED")
      ++ (columns (text "------------") (text "-----") (text "---") (text "-------")
            (text "-------")
          ++ list_rows lib (c ∷ rest))
]

abbrev dated : Library → Text → ℤ → Text
dated lib label t = if is_positive t then label ++ lib.ctime t else []

-- The output of `handle_info` for a container; the statistics are read under the text `id` that was
-- given, not under the identifier found.
unfoldable pub info_text :
    (K : Kernel) → Library → ResourceManager → Text → ContainerInfo → K.World → Text × K.World
info_text K lib rm id info w =
    let (stats, w') = resource_manager_get_stats K rm id w in
    let head =
      text "Container ID: "
      ++ (info.id
          ++ (text "\nState: "
              ++ (safe_state_name info.state
                  ++ (text "\nPID: "
                      ++ (decimal info.pid
                          ++ (text "\nCreated: "
                              ++ (lib.ctime info.created_at
                                  ++ (dated lib (text "Started: ") info.started_at
                                      ++ dated lib (text "Stopped: ") info.stopped_at)))))))) in
    if is_running info.state
    then (
      head
          ++ (text "CPU Usage: "
              ++ (decimal (pos stats.cpu_usage)
                  ++ (text " nanoseconds\nMemory Usage: "
                      ++ (decimal (pos stats.memory_usage) ++ text " bytes\n")))),
      w',
    )
    else (head, w)

-- a - b, as a `long`
abbrev pub minus : ℤ → ℤ → ℤ
minus (pos a) (pos b) = if leb b a then pos (a - b) else negsuc (b - a - 1)
minus (pos a) (negsuc b) = pos (a + suc b)
minus (negsuc a) (pos b) = negsuc (a + b)
minus (negsuc a) (negsuc b) = if leb a b then pos (b - a) else negsuc (a - b - 1)

-- The remainder of a `long`, with the sign of the dividend.
abbrev rem_int : ℤ → ℕ → ℤ
rem_int (pos a) n = pos (a % n)
rem_int (negsuc a) n = let r = suc a % n in if ltb 0 r then negsuc (r - 1) else pos 0

-- "%02d"
abbrev two_digits : ℤ → Text
two_digits (pos n) = if ltb n 10 then b'0' ∷ decimal_nat n else decimal_nat n
two_digits (negsuc n) = decimal (negsuc n)

unfoldable pub format_duration : ℤ → ℤ → Text
format_duration start end =
    let diff = minus end start in
    let hours = int_of_long (div_int diff 3600) in
    let rest = text ":" ++ two_digits (rem_int diff 60) in
    let minutes = div_int (rem_int diff 3600) 60 in
    if eqℤ start (pos 0) || eqℤ end (pos 0)
    then text "--"
    else snprintf 32 (
        if is_positive hours
        then decimal hours ++ (text ":" ++ (two_digits minutes ++ rest))
        else decimal minutes ++ rest)
