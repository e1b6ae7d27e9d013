-- ===== src/Daemon/Main/Visits.antt =====
-- What the loop of `main` comes to.
use perfect_build_radar_touc.Base.{
  ◌≡◌, refl, Bool, not, ◌&&◌, ◌||◌, List, [], ◌∷◌, ◌++◌, arith, ◌==◌, if◌then◌else◌,
}
use perfect_build_radar_touc.Daemon.{run_radar_loop}
use perfect_build_radar_touc.Daemon.Main.{
  Call, clear_stop_file, write_marker, Visit, radar_calls, main_loop,
}

-- The calls of one round in which the daemon goes on: with a process, the marker is written, and
-- after that the radar is run.
unfoldable pub visit_calls : Visit → List Call
visit_calls v =
    let run = run_radar_loop v.start v.round.process v.rounds in
    if v.round.process == 0
    then []
    else if v.marked
    then write_marker ∷ radar_calls run.0
    else write_marker ∷ []

-- Whether the loop goes on after a round: the signal has not come and there is no stop file, also
-- while the radar ran.
unfoldable pub goes_on : Visit → Bool
goes_on v =
    let run = run_radar_loop v.start v.round.process v.rounds in
    v.round.running && not v.round.stop_file && (v.round.process == 0 || not v.marked || run.1)

-- The calls of a round, also the last.
unfoldable pub round_calls : Visit → List Call
round_calls v =
    if not v.round.running
    then []
    else if v.round.stop_file
    then clear_stop_file ∷ []
    else visit_calls v

unfoldable pub all_calls : List Visit → List Call
all_calls [] = []
all_calls (v ∷ vs) = let rest = all_calls vs in round_calls v ++ (if goes_on v then rest else [])

-- The loop of `main` calls in each round what that round asks for, up to the first after which it is
-- not to go on: nothing without a process, and otherwise the marker and, if that could be written,
-- the whole of `run_radar_loop`. The last reported process never keeps it from a process that is
-- there, since it is 0 whenever a round starts.
pub main_loop-eq : (vs : List Visit) → main_loop 0 vs ≡ all_calls vs
unfolding main_loop all_calls round_calls visit_calls goes_on
main_loop-eq [] = refl
main_loop-eq (v ∷ vs) = ground (arith, main_loop-eq vs)
