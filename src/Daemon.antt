-- ===== src/Daemon.antt =====
-- The daemon's loops in source/daemon/main.c. What the system answers is a list, one entry for a
-- call of `write` or for a round of a loop; the marker file's path and mode are not modelled.
pub mod Writing
pub mod Rounds
pub mod Main
mod Tests
use perfect_build_radar_touc.Base.{
  ℕ, zero, suc, Bool, true, false, not, ◌&&◌, ◌||◌, List, [], ◌∷◌, ◌++◌, Option, none, some, Bytes,
  ltb, ◌==◌, if◌then◌else◌, take, drop,
}

-- The result of one call of `write`: a number of bytes, `EINTR`, or another error.
pub data Written : Type 0 where
  wrote : ℕ → Written
  interrupted : Written
  refused : Written

-- The result and the file, or nothing while a call of `write` has not been answered. `data` is what
-- is left from `offset`.
unfoldable pub write_all : List Written → (data_left file : Bytes) → Option (Bool × Bytes)
write_all outs [] file = some (true, file)
write_all [] (b ∷ bs) file = none
write_all (interrupted ∷ outs) (b ∷ bs) file = write_all outs (b ∷ bs) file
write_all (refused ∷ outs) (b ∷ bs) file = some (false, file)
write_all (wrote zero ∷ outs) (b ∷ bs) file = some (false, file)
write_all (wrote (suc n) ∷ outs) (b ∷ bs) file = write_all outs (drop n bs) (file ++ b ∷ take n bs)

-- What one round sees: `gRunning`, the stop file, and the process that `find_target_process` finds.
pub record Round : Type 0 where
  pub running : Bool
  pub stop_file : Bool
  pub process : ℕ

-- The calls that the daemon makes.
pub data Action : Type 0 where
  acquire_task : ℕ → Action
  release_task : Action
  init_radar : Action
  destroy_radar : Action
  tick : Action
  remove_stop_file : Action
  mark : Action

-- The rounds of `run_radar_loop`: the calls, whether `gRunning` is still set, and the rounds that
-- are left. The process is not found in a round after the last.
unfoldable pub radar_rounds : ℕ → List Round → List Action × Bool × List Round
radar_rounds target [] = ([], true, [])
radar_rounds target (r ∷ rs) =
    let rest = radar_rounds target rs in
    if not r.running
    then ([], false, rs)
    else if r.stop_file
    then (remove_stop_file ∷ [], false, rs)
    else if r.process == target
    then (tick ∷ rest.0, rest.1, rest.2)
    else ([], true, rs)

-- The calls that can fail before the loop.
pub record Start : Type 0 where
  pub task_acquired : Bool
  pub aslr_found : Bool
  pub radar_ready : Bool

unfoldable pub run_radar_loop : Start → ℕ → List Round → List Action × Bool × List Round
run_radar_loop start target rs =
    let run = radar_rounds target rs in
    if not start.task_acquired
    then ([], true, rs)
    else if start.aslr_found && start.radar_ready
    then (
      acquire_task target ∷ init_radar ∷ (run.0 ++ destroy_radar ∷ release_task ∷ []),
      run.1,
      run.2,
    )
    else (acquire_task target ∷ release_task ∷ [], true, rs)
