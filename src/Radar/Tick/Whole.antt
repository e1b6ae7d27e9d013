-- ===== src/Radar/Tick/Whole.antt =====
-- The frame of a tick as a whole.
use perfect_build_radar_touc.Base.{
  ℕ, ◌-◌, ◌≤◌, ◌<◌, ◌≡◌, refl, ◌⊎◌, inl, inr, Bool, true, false, List, [], ◌∷◌, arith, ◌==◌,
  if◌then◌else◌, if-split, length, All, Bool-cases, Option-cases,
}
use perfect_build_radar_touc.Remote.{Vm}
use perfect_build_radar_touc.Radar.World.{ptr}
use perfect_build_radar_touc.Radar.Meta.Keeps.{Keeps}
use perfect_build_radar_touc.Radar.Classes.{Resolver, ClassEntry}
use perfect_build_radar_touc.Radar.Tick.{Float, Vec, vec, position, distance}
use perfect_build_radar_touc.Radar.Tick.Players.{max_players}
use perfect_build_radar_touc.Radar.Tick.Bots.{IsRuledValue}
use perfect_build_radar_touc.Radar.Tick.Loop.{IsRuledPlayer, tick_players-IsRuled}
use perfect_build_radar_touc.Radar.Tick.Vehicles.{Vehicle, max_vehicles, vehicle_of, tick_vehicles}
use perfect_build_radar_touc.Radar.Tick.Loot.{max_items}
use perfect_build_radar_touc.Radar.Tick.Loot.Shown.{IsShown, IsLabelled, tick_items-IsShown}
use perfect_build_radar_touc.Radar.Tick.Frame.{
  Ticker, local_team_of, zero_vec, vec_or, discovered, tick_frame,
}

-- The vehicles that a loop shows.
abbrev Fits : (fl : Float) → (room : ℕ) → List ℕ × List (Vehicle fl.F) → Type 0
Fits fl room r = length r.1 ≤ room

length-tick_vehicles :
    (fl : Float) (r : Resolver) (vm : Vm) (camera_pos : Vec fl.F) (room : ℕ) (vehicles : List ℕ)
    (classes : List ClassEntry)
    → Fits fl room (tick_vehicles fl r vm camera_pos room vehicles classes)
unfolding tick_vehicles
length-tick_vehicles fl r vm camera_pos room [] classes = omega arith
length-tick_vehicles fl r vm camera_pos room (v ∷ vs) classes =
    let passed = length-tick_vehicles fl r vm camera_pos room vs classes in
    let rest = length-tick_vehicles fl r vm camera_pos (room - 1) vs classes in
    elim (Bool-cases (room == 0)) [
      | inl e ↦ rw e (omega arith)
      | inr e ↦ elim (Bool-cases (v == 0)) [
        | inl null ↦ rw (e, null) passed
        | inr there ↦ elim (Option-cases (position fl vm v)) [
          | inl gone ↦ rw (e, there, gone) passed
          | inr place ↦
              let skip = tick_vehicles fl r vm camera_pos room vs classes in
              let more = tick_vehicles fl r vm camera_pos (room - 1) vs classes in
              rw (e, there, place.1)
                (if-split (Fits fl room) (fl.lt (fl.lit 800000) (distance fl place.0 camera_pos))
                  (v ∷ skip.0, skip.1)
                  (v ∷ more.0, vehicle_of fl r vm place.0 camera_pos v classes ∷ more.1)
                  (λ _. passed) (λ _. ground (arith, e, rest)))
        ]
      ]
    ]

-- The team that is shown is what is remembered, and it is not forgotten.
local_team_of-kept :
    (vm : Vm) (pawn pc cached : ℕ)
    → ((local_team_of vm pawn pc cached).0 ≡ (local_team_of vm pawn pc cached).1)
      × ((cached ≡ 0) ⊎ (0 < (local_team_of vm pawn pc cached).0))
unfolding local_team_of
local_team_of-kept vm pawn pc cached = ground arith

abbrev status_of : Bool → ℕ
status_of b = if b then 2 else 3

status-cases : (b : Bool) → (status_of b ≡ 2) ⊎ (status_of b ≡ 3)
status-cases true = inl refl
status-cases false = inr refl

-- For any target, name lookup, floating-point unit, world and controller: when no entry of the
-- player cache is a bot of the team that the frame shows as the local one, where that is known, and
-- every entry of the item cache has a name of 1 to 31 bytes and a category from 1 to 5, then the
-- frame of `radar_tick` has at most 100 players, none of them a bot of the local team, at most 30
-- vehicles, and at most 60 items, each with such a name and category and a positive count. Both
-- caches stay as they were said to be, a local team that was known stays known, the team that is
-- shown is the one that is remembered, and the status is 2 or 3.
pub tick_frame-IsShown :
    (fl : Float) (r : Resolver) (vm : Vm) (scan_due : Bool) (world pc : ℕ) (s : Ticker)
    → All
        (Keeps (IsRuledValue (tick_frame fl r vm scan_due world pc s).0.local_team))
        s.player_cache
    → All (Keeps IsLabelled) s.item_cache
    → (length (tick_frame fl r vm scan_due world pc s).0.players ≤ max_players)
      × All
          (IsRuledPlayer (tick_frame fl r vm scan_due world pc s).0.local_team)
          (tick_frame fl r vm scan_due world pc s).0.players
      × All
          (Keeps (IsRuledValue (tick_frame fl r vm scan_due world pc s).0.local_team))
          (tick_frame fl r vm scan_due world pc s).1.player_cache
      × (length (tick_frame fl r vm scan_due world pc s).0.vehicles ≤ max_vehicles)
      × (length (tick_frame fl r vm scan_due world pc s).0.items ≤ max_items)
      × All IsShown (tick_frame fl r vm scan_due world pc s).0.items
      × All (Keeps IsLabelled) (tick_frame fl r vm scan_due world pc s).1.item_cache
      × ((s.cached_local_team ≡ 0) ⊎ (0 < (tick_frame fl r vm scan_due world pc s).0.local_team))
      × ((tick_frame fl r vm scan_due world pc s).0.local_team
          ≡ (tick_frame fl r vm scan_due world pc s).1.cached_local_team)
      × (((tick_frame fl r vm scan_due world pc s).2 ≡ 2)
          ⊎ ((tick_frame fl r vm scan_due world pc s).2 ≡ 3))
unfolding tick_frame
tick_frame-IsShown fl r vm scan_due world pc s hp hi =
    let pawn = ptr vm pc 0x528 in
    let camera_pos = vec_or fl r vm (zero_vec fl r vm) (vec fl vm (ptr vm pc 0x548) 0x530) in
    let team = local_team_of-kept vm pawn pc s.cached_local_team in
    let l = (local_team_of vm pawn pc s.cached_local_team).0 in
    let actors = discovered fl r vm scan_due world s.actors in
    let players =
      tick_players-IsRuled fl vm camera_pos l pawn actors.characters s.player_cache hp in
    let items = tick_items-IsShown fl r vm camera_pos actors.items s.item_cache hi in
    (
      players.1,
      players.2,
      players.3,
      length-tick_vehicles fl r vm camera_pos max_vehicles actors.vehicles actors.classes,
      items.1,
      items.2,
      items.3,
      team.1,
      team.0,
      status-cases _,
    )
