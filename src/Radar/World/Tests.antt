-- ===== src/Radar/World/Tests.antt =====
-- A lookup in a small target: a local player at 0x2000 with its viewport, world and controller.
use perfect_build_radar_touc.Base.{
  ℕ, ◌≡◌, ◌≢◌, refl, true, false, [], ◌∷◌, some, arith, ◌==◌, if◌then◌else◌, ℤ, pos, le,
}
use perfect_build_radar_touc.Remote.{Vm, read, fetch, read_ptr, validate_ptr}
use perfect_build_radar_touc.Radar.World.{
  Lookup, ptr, instance_controller, local_controller, clear_caches, fresh_caches, links_back,
  search_player, lookup_world, find_world,
}
use perfect_build_radar_touc.Radar.World.Controller.{find_world-controller}

-- The second byte of the word at an address; the others are 0.
abbrev second : ℕ → ℕ
second a =
    if a == 0x2058
    then 0x30
    else if a == 0x3078
    then 0x40
    else if a == 0x2030
    then 0x50
    else if a == 0x5518
    then 0x20
    else 0

abbrev game : Vm
game a n = some (0 ∷ second a ∷ 0 ∷ 0 ∷ 0 ∷ 0 ∷ 0 ∷ 0 ∷ [])

abbrev player_at : ℤ → ℕ × ℤ
player_at cursor = (0x2000, pos 7)

abbrev blank : Lookup
blank = record {
  local_player = 0;
  world = 0;
  world_cursor = pos 0;
  reflection = false;
  character_count = 3;
  vehicle_count = 0;
  item_count = 0;
  class_count = 9;
  player_meta_count = 0;
  item_meta_count = 0;
}

find_world_runs :
    ((find_world player_at game true true blank).world ≡ 0x4000)
    × ((find_world player_at game true true blank).local_player ≡ 0x2000)
    × ((find_world player_at game false true blank).world ≡ 0)
    × ((find_world player_at game false true
          (record blank { local_player = 0x2000; world = 0x7000 })).class_count
        ≡ 0)
unfolding find_world lookup_world search_player links_back fresh_caches clear_caches
    local_controller instance_controller ptr read_ptr fetch read validate_ptr le
find_world_runs = (refl, refl, refl, refl)

-- With a local player that is lost, the search takes a new world and the counts stay: they are reset
-- only where the local player itself shows another world.
find_world_keeps_counts :
    ((find_world player_at game true true
        (record blank { local_player = 0x9000; world = 0x7000 })).world
      ≡ 0x4000)
    × ((find_world player_at game true true
          (record blank { local_player = 0x9000; world = 0x7000 })).class_count
        ≡ 9)
unfolding find_world lookup_world search_player links_back fresh_caches clear_caches
    local_controller instance_controller ptr read_ptr fetch read validate_ptr le
find_world_keeps_counts = (refl, refl)

world-ne : (find_world player_at game true true blank).world ≢ 0
world-ne h = absurd (omega (arith, find_world_runs.0, h))

find_world-controller_example :
    local_controller game
      (find_world player_at game true true blank).local_player
      (find_world player_at game true true blank).world
    ≢ 0
find_world-controller_example = find_world-controller player_at game true true blank world-ne
