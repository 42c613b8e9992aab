-- ===== src/Process.antt =====
-- The process helpers of src/container_manager.cpp: `is_pid_alive` and `kill_process_tree`.
use mini_container.Prelude.{
  ℕ, zero, suc, ◌++◌, Bool, true, false, not, ◌&&◌, List, [], ◌∷◌, none, some, if◌then◌else◌, ℤ,
  eqℤ, is_positive,
}
use mini_container.Text.{Text, text, snprintf, decimal, atoi, scan_ints, is_hidden}
use mini_container.Kernel.{
  Kernel, Done, returned, error, esrch, is_returned, Signal, signal_probe, sigterm, sigkill,
}

abbrev alive_by : Done → Bool
alive_by (returned u) = true
alive_by (error e) = elim e [ esrch ↦ false | _ ↦ true ]

-- A loop that runs a body on every element.
unfoldable pub each {ℓ} : {A S : Type ℓ} → (A → S → S) → List A → S → S
each body [] s = s
each body (x ∷ xs) s = each body xs (body x s)

abbrev proc_path : ℤ → Text → Text
proc_path pid rest = snprintf 256 (text "/proc/" ++ (decimal pid ++ rest))

module _ (K : Kernel) where
  open K use {World}

  unfoldable pub is_pid_alive : ℤ → World → Bool × World
  is_pid_alive pid w =
      if is_positive pid
      then (let (r, w') = K.kill pid signal_probe w in (alive_by r, w'))
      else (false, w)

  unfoldable pub send : Signal → ℤ → World → World
  send signal pid w = (K.kill pid signal w).1

  -- SIGTERM, and SIGKILL a while later if the process is still there.
  unfoldable pub terminate : ℤ → World → World
  unfolding send
  terminate pid w =
      let (there, w') = K.kill pid signal_probe (K.usleep 100000 (send sigterm pid w)) in
      if is_returned there then K.usleep 50000 (send sigkill pid w') else w'

  kill_thread : ℤ → Text → World → World
  unfolding send
  kill_thread pid name w =
      let tid = atoi name in
      if not (is_hidden name) && (is_positive tid && not (eqℤ tid pid))
      then send sigkill tid w
      else w

  -- The entries of /proc/<pid>/task.
  unfoldable pub kill_threads : ℤ → World → World
  unfolding kill_thread each
  kill_threads pid w = elim (K.read_dir (proc_path pid (text "/task")) w).0 [
    | none ↦ (K.read_dir (proc_path pid (text "/task")) w).1
    | some names ↦ each (kill_thread pid) names (K.read_dir (proc_path pid (text "/task")) w).1
  ]

  -- The numbers of /proc/<pid>/task/<pid>/children, none if it cannot be opened.
  unfoldable pub children_of : ℤ → World → List ℤ × World
  unfolding scan_ints
  children_of pid w =
      let path = proc_path pid (text "/task/" ++ (decimal pid ++ text "/children")) in
      let (contents, w') = K.read_text path w in
      (elim contents [ none ↦ [] | some s ↦ scan_ints s ], w')

  -- The recursion goes down the process tree; the fuel bounds its depth.
  unfoldable pub kill_process_tree : ℕ → ℤ → World → World
  kill_process_tree zero pid w = w
  kill_process_tree (suc depth) pid w =
      let (children, w') = children_of pid (kill_threads pid (terminate pid w)) in
      let rest =
        each (λ child w. if is_positive child then kill_process_tree depth child w else w) children
          w' in
      if is_positive pid then rest else w
