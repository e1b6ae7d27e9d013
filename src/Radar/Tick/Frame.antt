-- ===== src/Radar/Tick/Frame.antt =====
-- `radar_tick` from the controller on: the header, the discovery of actors and the three loops.
use perfect_build_radar_touc.Base.{
  ℕ, Bool, true, false, not, ◌&&◌, ◌||◌, List, [], ◌∷◌, Option, none, some, ltb, ◌==◌,
  if◌then◌else◌, add64, le,
}
use perfect_build_radar_touc.Remote.{Vm, fetch}
use perfect_build_radar_touc.Radar.World.{ptr}
use perfect_build_radar_touc.Radar.Meta.{Entry, PlayerMeta, ItemMeta}
use perfect_build_radar_touc.Radar.Classes.{Resolver}
use perfect_build_radar_touc.Radar.Classes.Level.{Actors, scan_persistent_level}
use perfect_build_radar_touc.Radar.Tick.{Float, Vec, vec, position}
use perfect_build_radar_touc.Radar.Tick.Players.{Player, max_players, tick_players}
use perfect_build_radar_touc.Radar.Tick.Vehicles.{Vehicle, max_vehicles, tick_vehicles}
use perfect_build_radar_touc.Radar.Tick.Loot.{Item, max_items, tick_items}

-- The fields of the header that a tick fills in, and the lists.
pub record TickFrame (F : Type 0) : Type 0 where
  pub local_pos : Vec F
  pub local_rot : Vec F
  pub camera_pos : Vec F
  pub camera_fov : F
  pub camera_valid : Bool
  pub local_team : ℕ
  pub players : List (Player F)
  pub vehicles : List (Vehicle F)
  pub items : List (Item F)

-- The static variables that a tick keeps.
pub record Ticker : Type 0 where
  pub actors : Actors
  pub player_cache : List (Entry PlayerMeta)
  pub item_cache : List (Entry ItemMeta)
  pub cached_local_team : ℕ

-- The first pointer that is not null.
abbrev pub first_ptr : Vm → ℕ → List ℕ → ℕ
first_ptr vm object [] = 0
first_ptr vm object (offset ∷ offsets) =
    let p = ptr vm object offset in
    let rest = first_ptr vm object offsets in if p == 0 then rest else p

-- The player state of the local player, or 0.
unfoldable pub local_state : Vm → (pawn pc : ℕ) → ℕ
local_state vm pawn pc =
    let by_pawn = first_ptr vm pawn (0x2410 ∷ 0x4d0 ∷ []) in
    let by_pc = first_ptr vm pc (0x488 ∷ 0x4f0 ∷ 0x500 ∷ 0x508 ∷ []) in
    if not (pawn == 0) && not (by_pawn == 0) then by_pawn else if pc == 0 then 0 else by_pc

-- The local team, and what is remembered of it.
unfoldable pub local_team_of : Vm → (pawn pc cached : ℕ) → ℕ × ℕ
local_team_of vm pawn pc cached =
    let st = local_state vm pawn pc in
    let team : ℕ = elim (fetch vm (add64 st 0x700) 4) [ none ↦ 0 | some bs ↦ le bs ] in
    if not (st == 0) && ltb 0 team then (team, team) else (cached, cached)

module _ (fl : Float) (r : Resolver) (vm : Vm) where
  abbrev pub zero_vec : Vec fl.F
  zero_vec = record { x = fl.lit 0; y = fl.lit 0; z = fl.lit 0 }

  -- A vector, or the one that stood there before.
  abbrev pub vec_or : Vec fl.F → Option (Vec fl.F) → Vec fl.F
  vec_or old none = old
  vec_or old (some v) = v

  abbrev pub is_there : Option (Vec fl.F) → Bool
  is_there none = false
  is_there (some v) = true

  -- The field of view, if it can be read and is between 10 and 180 degrees.
  unfoldable pub fov_of : (camera : ℕ) → Option fl.F
  fov_of camera =
      let read : Option fl.F = elim (fetch vm (add64 camera 0x554) 4) [
        | none ↦ none
        | some bs ↦
            let fov = fl.of_bits bs in
            if fl.is_finite fov && fl.lt (fl.lit 10000) fov && fl.lt fov (fl.lit 180000)
            then some fov
            else none
      ] in
      if camera == 0 then none else read

  -- The actors that the tick goes over.
  unfoldable pub discovered : (scan_due : Bool) → (world : ℕ) → Actors → Actors
  discovered scan_due world actors =
      if scan_due then (scan_persistent_level r vm world actors).1 else actors

  -- The frame, what is kept, and the status that is published.
  unfoldable pub tick_frame :
      (scan_due : Bool) → (world pc : ℕ) → Ticker → TickFrame fl.F × Ticker × ℕ
  tick_frame scan_due world pc s =
      let pawn = ptr vm pc 0x528 in
      let camera = ptr vm pc 0x548 in
      let place = position fl vm pawn in
      let camera_place = vec fl vm camera 0x530 in
      let camera_pos = vec_or zero_vec camera_place in
      let rot = vec fl vm camera 0x548 in
      let fov = fov_of camera in
      let camera_valid : Bool = elim fov [
        | none ↦ false
        | some f ↦ is_there rot && is_there camera_place
      ] in
      let team = local_team_of vm pawn pc s.cached_local_team in
      let actors = discovered scan_due world s.actors in
      let players =
        tick_players fl vm camera_pos team.0 pawn max_players actors.characters s.player_cache in
      let vehicles = tick_vehicles fl r vm camera_pos max_vehicles actors.vehicles actors.classes in
      let items = tick_items fl r vm camera_pos max_items actors.items s.item_cache in
      (
        record {
          local_pos = vec_or camera_pos place;
          local_rot = vec_or zero_vec rot;
          camera_pos = camera_pos;
          camera_fov = elim fov [ none ↦ fl.lit 90000 | some f ↦ f ];
          camera_valid = camera_valid;
          local_team = team.0;
          players = players.1;
          vehicles = vehicles.1;
          items = items.1;
        },
        record {
          actors = record actors { characters = players.0; vehicles = vehicles.0; items = items.0 };
          player_cache = players.2;
          item_cache = items.2;
          cached_local_team = team.1;
        },
        (if is_there place || camera_valid then 2 else 3),
      )
