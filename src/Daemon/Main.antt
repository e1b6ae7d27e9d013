-- ===== src/Daemon/Main.antt =====
-- `main` of source/daemon/main.c from the arguments on. The handlers, the process-wide settings and
-- the threads that it starts before, and the sleeps, are not modelled.
pub mod Visits
mod Tests
use perfect_build_radar_touc.Base.{
  ℕ, Bool, true, false, not, ◌&&◌, List, [], ◌∷◌, ◌++◌, Option, none, some, ltb, ◌==◌,
  if◌then◌else◌,
}
use perfect_build_radar_touc.Daemon.{Round, Action, Start, run_radar_loop}

-- What `main` does itself, and what `run_radar_loop` does for it.
pub data Call : Type 0 where
  radar : Action → Call
  clear_stop_file : Call
  write_marker : Call
  remove_pid_file : Call
  remove_radar_file : Call
  dump : ℕ → Call

-- What one round of the loop sees: whether `write_marker` succeeds, and what `run_radar_loop` sees
-- if it is called.
pub record Visit : Type 0 where
  pub round : Round
  pub marked : Bool
  pub start : Start
  pub rounds : List Round

abbrev pub radar_calls : List Action → List Call
radar_calls [] = []
radar_calls (a ∷ more) = radar a ∷ radar_calls more

-- The loop with `last_reported_pid`. The signal comes in a round after the last.
unfoldable pub main_loop : (last_reported_pid : ℕ) → List Visit → List Call
main_loop last_reported_pid [] = []
main_loop last_reported_pid (v ∷ vs) =
    let pid = v.round.process in
    let run = run_radar_loop v.start pid v.rounds in
    let again = main_loop 0 vs in
    let same = main_loop last_reported_pid vs in
    let reported : List Call =
      if not v.marked
      then write_marker ∷ same
      else write_marker ∷ (radar_calls run.0 ++ (if run.1 then again else [])) in
    if not v.round.running
    then []
    else if v.round.stop_file
    then clear_stop_file ∷ []
    else if not (pid == 0) && not (pid == last_reported_pid)
    then reported
    else if pid == 0
    then again
    else same

-- The arguments that count: a dump of a process, a process to read, or neither.
pub data Arguments : Type 0 where
  dump_once : ℕ → Arguments
  direct : ℕ → Arguments
  watch : Arguments

-- The calls, and the exit status. `dumped` says whether `ue4_sdk_generate` succeeds; the numbers are
-- not negative, and 0 stands for any that is not positive.
unfoldable pub main :
    Arguments → (dumped : Bool) → List Visit → (direct_visit : Visit) → List Call × ℕ
main (dump_once pid) dumped vs v =
    if ltb 0 pid
    then (remove_pid_file ∷ dump pid ∷ [], if dumped then 0 else 1)
    else (remove_pid_file ∷ [], 1)
main (direct pid) dumped vs v =
    let watched = main_loop 0 vs ++ remove_pid_file ∷ remove_radar_file ∷ [] in
    let run = run_radar_loop v.start pid v.rounds in
    if ltb 0 pid
    then (write_marker ∷ (radar_calls run.0 ++ remove_pid_file ∷ []), 0)
    else (watched, 0)
main watch dumped vs v = (main_loop 0 vs ++ remove_pid_file ∷ remove_radar_file ∷ [], 0)
