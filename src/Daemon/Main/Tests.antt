-- ===== src/Daemon/Main/Tests.antt =====
-- A round without a process, one with a process that exits, and one with a stop file.
use perfect_build_radar_touc.Base.{◌≡◌, refl, true, false, List, [], ◌∷◌}
use perfect_build_radar_touc.Daemon.{
  Round, acquire_task, release_task, init_radar, destroy_radar, tick, radar_rounds, run_radar_loop,
}
use perfect_build_radar_touc.Daemon.Main.{radar, clear_stop_file, write_marker, Visit, main_loop}
use perfect_build_radar_touc.Daemon.Main.Visits.{all_calls, main_loop-eq}

abbrev idle : Round
idle = record { running = true; stop_file = false; process = 0 }

abbrev empty_visit : Visit
empty_visit = record {
  round = idle;
  marked = true;
  start = record { task_acquired = true; aslr_found = true; radar_ready = true };
  rounds = [];
}

abbrev visits : List Visit
visits =
    empty_visit
    ∷ record empty_visit {
      round = record idle { process = 7 };
      rounds = record idle { process = 7 } ∷ idle ∷ [];
    }
    ∷ record empty_visit { round = record idle { stop_file = true } }
    ∷ empty_visit
    ∷ []

main_loop_runs :
    main_loop 0 visits
    ≡ write_marker
      ∷ radar (acquire_task 7)
      ∷ radar init_radar
      ∷ radar tick
      ∷ radar destroy_radar
      ∷ radar release_task
      ∷ clear_stop_file
      ∷ []
unfolding main_loop run_radar_loop radar_rounds
main_loop_runs = refl

main_loop-eq_example : main_loop 0 visits ≡ all_calls visits
main_loop-eq_example = main_loop-eq visits
