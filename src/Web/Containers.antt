-- ===== src/Web/Containers.antt =====
-- `SimpleWebServer::getContainerListJSON`. The processor's `double` enters as a record of its
-- operations.
pub mod Throwing
use mini_container.Prelude.{
  ℕ, ◌-◌, ◌+◌, ◌%◌, ◌^◌, Bool, true, false, ◌&&◌, [], ◌∷◌, List, ◌++◌, Option, none, some, ltb,
  if◌then◌else◌, Exec, pure, ◌>>=◌, ℤ, pos, negsuc,
}
use mini_container.Text.{Text, text, text_eq, decimal}
use mini_container.Doubles.{Doubles}
use mini_container.Kernel.{Kernel}
use mini_container.Config.{
  ContainerInfo, ContainerManager, ContainerState, created, running, stopped, destroyed, unnamed,
  is_running,
}
use mini_container.Resource.Stats.{resource_manager_get_stats}
use mini_container.Command.Listing.{active_containers, minus}
use mini_container.Web.Quota.{Limits, read_limits}

-- The static maps: usage and time at the last report of a container.
pub record Previous : Type 0 where
  pub cpu_usage : Text → Option ℕ
  pub time : Text → Option ℤ

abbrev set_key : {A : Type 0} → (Text → Option A) → Text → Option A → Text → Option A
set_key f key value x = if text_eq x key then value else f x

unfoldable pub remember : Text → ℕ → ℤ → Previous → Previous
remember id usage now prev = record {
  cpu_usage = set_key prev.cpu_usage id (some usage);
  time = set_key prev.time id (some now);
}

unfoldable pub forget : Text → Previous → Previous
forget id prev = record {
  cpu_usage = set_key prev.cpu_usage id none;
  time = set_key prev.time id none;
}

-- a - b, as an `unsigned long`
abbrev pub minus_ulong : ℕ → ℕ → ℕ
minus_ulong a b = (a + (2 ^ 64 - b)) % 2 ^ 64

abbrev state_str : ContainerState → Text
state_str created = text "CREATED"
state_str running = text "RUNNING"
state_str stopped = text "STOPPED"
state_str destroyed = text "DESTROYED"
state_str (unnamed n) = text "UNKNOWN"

module _ (F : Doubles) where
  open F use {Double}

  abbrev percent : Double → Double
  percent x = F.mul (F.of_ulong 100) x

  abbrev at_most_hundred : Double → Double
  at_most_hundred x = if F.less (F.of_ulong 100) x then F.of_ulong 100 else x

  abbrev at_least_zero : Double → Double
  at_least_zero x = if F.less x (F.of_ulong 0) then F.of_ulong 0 else x

  -- The limit that is reported and the percentage, for the nanoseconds used in so many seconds.
  cpu_share : ℕ → ℕ → ℕ → ℕ → ℕ × Double
  cpu_share quota period diff seconds =
      let ratio = F.div (F.div (F.of_ulong diff) (F.of_ulong 1000000000)) (F.of_ulong seconds) in
      let max_cpu = F.div (F.of_ulong quota) (F.of_ulong period) in
      let clamped : Double → Double = λ x. at_least_zero (at_most_hundred x) in
      if F.less (F.of_ulong 0) (F.of_ulong seconds)
      then (if ltb 0 quota && ltb 0 period
          then (quota, clamped (percent (F.div ratio max_cpu)))
          else (0, clamped (percent ratio)))
      else (0, F.of_ulong 0)

  -- By the time that went by.
  share_over : ℕ → ℕ → ℕ → ℤ → ℕ × Double
  unfolding cpu_share
  share_over quota period diff (pos seconds) =
      if ltb 0 seconds && ltb 0 diff then cpu_share quota period diff seconds else (0, F.of_ulong 0)
  share_over quota period diff (negsuc n) = (0, F.of_ulong 0)

  -- Nothing is known before the second report.
  share_since : Limits → Option ℕ → Option ℤ → ℕ → ℤ → ℕ × Double
  unfolding share_over
  share_since l none then_time usage now = (0, F.of_ulong 0)
  share_since l (some before) none usage now = (0, F.of_ulong 0)
  share_since l (some before) (some then_time) usage now =
      share_over l.cpu_quota_us l.cpu_period_us (minus_ulong usage before) (minus now then_time)

  memory_share : ℕ → ℕ → Double
  memory_share usage limit =
      if ltb 0 limit
      then at_most_hundred (percent (F.div (F.of_ulong usage) (F.of_ulong limit)))
      else F.of_ulong 0

  -- The numbers of a RUNNING container.
  running_text : ℕ → ℕ → Limits → ℕ × Double → Text
  unfolding memory_share
  running_text cpu memory limits (cpu_limit, cpu_percent) =
      text ",\"cpu_usage\":"
      ++ (decimal (pos cpu)
          ++ (text ",\"cpu_limit\":"
              ++ (decimal (pos cpu_limit)
                  ++ (text ",\"cpu_percent\":"
                      ++ (F.to_string cpu_percent
                          ++ (text ",\"memory_usage\":"
                              ++ (decimal (pos memory)
                                  ++ (text ",\"memory_limit\":"
                                      ++ (decimal (pos limits.memory_limit)
                                          ++ (text ",\"memory_percent\":"
                                              ++ F.to_string (
                                                  memory_share memory limits.memory_limit)))))))))))

  object : ContainerInfo → Text → Text
  object info numbers =
      text "{\"id\":\""
      ++ (info.id
          ++ (text "\",\"pid\":"
              ++ (decimal info.pid
                  ++ (text ",\"state\":\""
                      ++ (state_str info.state ++ (text "\"" ++ (numbers ++ text "}")))))))

  module _ (K : Kernel) (m : ContainerManager) where
    open K use {World}

    -- The object of a container, or none where an exception leaves the server's thread.
    running_object : ℤ → ContainerInfo → Exec (Previous × World) Text
    unfolding share_since running_text object
    running_object now info (prev, w) =
        let (stats, w1) = resource_manager_get_stats K m.rm info.id w in
        let (limits, w2) = read_limits K m.rm info.id w1 in
        elim limits [
          | none ↦ (none, (prev, w2))
          | some l ↦
              let share =
                share_since l (prev.cpu_usage info.id) (prev.time info.id) stats.cpu_usage now in
              (
                some (object info (running_text stats.cpu_usage stats.memory_usage l share)),
                (remember info.id stats.cpu_usage now prev, w2),
              )
        ]

    unfoldable pub container_object : ℤ → ContainerInfo → Exec (Previous × World) Text
    unfolding running_object object
    container_object now info (prev, w) =
        let answer = running_object now info (prev, w) in
        if is_running info.state then answer else (some (object info []), (forget info.id prev, w))

    -- The objects, with commas between them.
    unfoldable pub container_objects : Bool → ℤ → List ContainerInfo → Exec (Previous × World) Text
    unfolding container_object
    container_objects behind now [] = pure []
    container_objects behind now (info ∷ infos) = do
      json ← container_object now info
      rest ← container_objects true now infos
      pure ((if behind then text "," else []) ++ (json ++ rest))

    unfoldable pub container_list_json : Exec (Previous × World) Text
    unfolding container_objects
    container_list_json (prev, w) =
        let (now, w') = K.time w in
        (do
          objects ← container_objects false now (active_containers m.containers)
          pure (text "{\"containers\":[" ++ (objects ++ text "]}")))
          (prev, w')
