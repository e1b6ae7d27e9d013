-- ===== src/Daemon/Rounds.antt =====
-- The calls that `run_radar_loop` makes.
use mathlib.Core.List.{append_assoc}
use perfect_build_radar_touc.Base.{
  ℕ, suc, ◌≡◌, refl, sym, ap, ◌∙◌, inl, inr, Bool, not, ◌&&◌, List, [], ◌∷◌, ◌++◌, arith, ◌==◌,
  if◌then◌else◌, Bool-cases, replicate,
}
use perfect_build_radar_touc.Daemon.{
  Round, Action, acquire_task, release_task, init_radar, destroy_radar, tick, remove_stop_file,
  radar_rounds, Start, run_radar_loop,
}

-- A round in which the daemon is to read the radar.
unfoldable pub is_live : ℕ → Round → Bool
is_live target r = r.running && not r.stop_file && r.process == target

-- The rounds before the first in which it is not.
unfoldable pub live_rounds : ℕ → List Round → ℕ
live_rounds target [] = 0
live_rounds target (r ∷ rs) = if is_live target r then suc (live_rounds target rs) else 0

-- The stop file is removed when it ended the loop.
unfoldable pub stop_actions : ℕ → List Round → List Action
stop_actions target [] = []
stop_actions target (r ∷ rs) =
    let rest = stop_actions target rs in
    if is_live target r
    then rest
    else if r.running && r.stop_file
    then remove_stop_file ∷ []
    else []

radar_rounds-eq :
    (target : ℕ) (rs : List Round)
    → (radar_rounds target rs).0 ≡ replicate (live_rounds target rs) tick ++ stop_actions target rs
unfolding radar_rounds live_rounds stop_actions is_live
radar_rounds-eq target [] = refl
radar_rounds-eq target (r ∷ rs) = ground (arith, radar_rounds-eq target rs)

-- `run_radar_loop` calls `radar_tick` once for every round up to the first that is not live: the
-- signal has not come, there is no stop file, and the process is the one that the loop was started
-- for. It releases the task that it has acquired on every path, destroys the radar where it has
-- initialised it, and removes the stop file where that has ended the loop.
pub run_radar_loop-eq :
    (start : Start) (target : ℕ) (rs : List Round)
    → (run_radar_loop start target rs).0 ≡ (
        if start.task_acquired
        then acquire_task target
          ∷ ((if start.aslr_found && start.radar_ready
                then init_radar
                  ∷ (replicate (live_rounds target rs) tick
                      ++ stop_actions target rs
                      ++ destroy_radar ∷ [])
                else [])
              ++ release_task ∷ [])
        else [])
unfolding run_radar_loop
run_radar_loop-eq start target rs = elim (Bool-cases start.task_acquired) [
  | inl task ↦ elim (Bool-cases (start.aslr_found && start.radar_ready)) [
    | inl ready ↦
        rw (task, ready)
          (ap (λ calls. acquire_task target ∷ init_radar ∷ calls)
            (ap (λ x. x ++ destroy_radar ∷ release_task ∷ []) (radar_rounds-eq target rs)
              ∙ sym (
                  append_assoc (replicate (live_rounds target rs) tick ++ stop_actions target rs)
                    (destroy_radar ∷ []) (release_task ∷ []))))
    | inr ready ↦ rw (task, ready) refl
  ]
  | inr task ↦ rw task refl
]
