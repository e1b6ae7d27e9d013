-- ===== src/Daemon/Tests.antt =====
-- Short runs of the loops, and the theorems at such inputs.
use perfect_build_radar_touc.Base.{
  ◌≡◌, refl, true, false, List, [], ◌∷◌, ◌++◌, some, none, replicate,
}
use perfect_build_radar_touc.Daemon.{
  Written, wrote, interrupted, refused, write_all, Round, acquire_task, release_task, init_radar,
  destroy_radar, tick, remove_stop_file, radar_rounds, Start, run_radar_loop,
}
use perfect_build_radar_touc.Daemon.Rounds.{live_rounds, stop_actions, run_radar_loop-eq}

abbrev short_writes : List Written
short_writes = wrote 1 ∷ interrupted ∷ wrote 1 ∷ wrote 1 ∷ []

write_all_runs :
    (write_all short_writes (5 ∷ 6 ∷ 7 ∷ []) [] ≡ some (true, 5 ∷ 6 ∷ 7 ∷ []))
    × (write_all (wrote 2 ∷ refused ∷ []) (5 ∷ 6 ∷ 7 ∷ []) [] ≡ some (false, 5 ∷ 6 ∷ []))
    × (write_all (wrote 2 ∷ []) (5 ∷ 6 ∷ 7 ∷ []) [] ≡ none)
unfolding write_all
write_all_runs = (refl, refl, refl)

abbrev live : Round
live = record { running = true; stop_file = false; process = 7 }

abbrev rounds : List Round
rounds = live ∷ live ∷ record live { stop_file = true } ∷ live ∷ []

abbrev start : Start
start = record { task_acquired = true; aslr_found = true; radar_ready = true }

run_radar_loop_runs :
    (run_radar_loop start 7 rounds).0
    ≡ acquire_task 7
      ∷ init_radar
      ∷ tick
      ∷ tick
      ∷ remove_stop_file
      ∷ destroy_radar
      ∷ release_task
      ∷ []
unfolding run_radar_loop radar_rounds
run_radar_loop_runs = refl

run_radar_loop-eq_example :
    (run_radar_loop start 7 rounds).0
    ≡ acquire_task 7
      ∷ (init_radar
            ∷ (replicate (live_rounds 7 rounds) tick ++ stop_actions 7 rounds ++ destroy_radar ∷ [])
          ++ release_task ∷ [])
run_radar_loop-eq_example = run_radar_loop-eq start 7 rounds
