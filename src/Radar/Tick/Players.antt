-- ===== src/Radar/Tick/Players.antt =====
-- One character, and the loop over them.
use perfect_build_radar_touc.Base.{
  ℕ, ◌-◌, ◌/◌, ◌%◌, Bool, not, ◌&&◌, ◌||◌, List, [], ◌∷◌, ◌++◌, none, some, ◌==◌, if◌then◌else◌,
  Bytes, add64, le, codes,
}
use perfect_build_radar_touc.Remote.{Vm}
use perfect_build_radar_touc.Radar.World.{ptr}
use perfect_build_radar_touc.Radar.Text.{read_fstring}
use perfect_build_radar_touc.Radar.Meta.{Entry, PlayerMeta, find_meta, store_player_meta}
use perfect_build_radar_touc.Radar.Tick.{
  Float, Vec, raw, read_float, vec, position, distance, raised, lowered, left_of, right_of, limb,
}

-- `radar_player_t` without `is_visible`, which stays 0, and `has_bones`, which is 1.
pub record Player (F : Type 0) : Type 0 where
  pub pos : Vec F
  pub health : F
  pub health_max : F
  pub yaw : F
  pub team_id : ℕ
  pub is_bot : ℕ
  pub health_status : ℕ
  pub name : Bytes
  pub distance : F
  pub head_pos : Vec F
  pub feet_pos : Vec F
  pub bones : List (Vec F)

abbrev pub max_players : ℕ
max_players = 100

-- The player state of a character, or 0.
unfoldable pub player_state : Vm → (other : ℕ) → ℕ
player_state vm other = let st = ptr vm other 0x2410 in if st == 0 then ptr vm other 0x4d0 else st

-- The rule that a teammate is no bot.
unfoldable pub no_teammate_bot : (local_team team_id is_bot : ℕ) → ℕ
no_teammate_bot local_team team_id is_bot =
    if not (local_team == 0) && team_id == local_team then 0 else is_bot

-- The team, the bot flag and the name that the player state gives.
unfoldable pub read_meta : Vm → (local_team st : ℕ) → PlayerMeta
read_meta vm local_team st =
    let team_id = le (raw vm (add64 st 0x700) 4) in
    let raw_bot = le (raw vm (add64 st 0x4dc) 1) in
    let is_bot = no_teammate_bot local_team team_id (if raw_bot / 4 % 2 == 1 then 1 else 0) in
    let name : Bytes = elim (read_fstring vm (add64 st 0x4b8) 32) [
      | some name ↦ name
      | none ↦ elim (read_fstring vm (add64 st 0x13e0) 32) [
        | some name ↦ name
        | none ↦ if not (is_bot == 0) then codes "Bot" else codes "Player"
      ]
    ] in
    if st == 0
    then record { team_id = 0; is_bot = no_teammate_bot local_team 0 0; name = codes "Player" }
    else record {
      team_id = team_id;
      is_bot = no_teammate_bot local_team team_id is_bot;
      name = name;
    }

-- What is cached for the character, or else read and stored.
unfoldable pub meta_of :
    Vm → (local_team other st : ℕ) → List (Entry PlayerMeta) → PlayerMeta × List (Entry PlayerMeta)
meta_of vm local_team other st cache = elim (find_meta cache other) [
  | some m ↦ (m, cache)
  | none ↦
      let m = read_meta vm local_team st in
      (m, store_player_meta cache other m.team_id m.is_bot m.name)
]

-- What one character comes to: nothing, its place in the array cleared, or a player.
pub data Sight (F : Type 0) : Type 0 where
  skipped : Sight F
  lost : Sight F
  shown : Player F → List (Entry PlayerMeta) → Sight F

module _ (fl : Float) (vm : Vm) where
  -- The health and its maximum as they are read, from either source.
  unfoldable pub raw_health : (other st : ℕ) → fl.F × fl.F
  raw_health other st =
      let hp = read_float fl vm (add64 other 0xe60) in
      let hp_max = read_float fl vm (add64 other 0xe64) in
      let st_hp = read_float fl vm (add64 st 0x142c) in
      let st_hp_max = read_float fl vm (add64 st 0x1430) in
      let bad =
        not (fl.is_finite hp)
        || fl.leq hp (fl.lit 0)
        || not (fl.is_finite hp_max)
        || fl.leq hp_max (fl.lit 0) in
      if bad && not (st == 0)
      then (
        (if fl.is_finite st_hp && fl.lt (fl.lit 0) st_hp then st_hp else hp),
        (if fl.is_finite st_hp_max && fl.lt (fl.lit 0) st_hp_max then st_hp_max else hp_max),
      )
      else (hp, hp_max)

  unfoldable pub health_of : (other st : ℕ) → fl.F × fl.F
  health_of other st =
      let read = raw_health other st in
      let hp = if not (fl.is_finite read.0) || fl.lt read.0 (fl.lit 0) then fl.lit 0 else read.0 in
      let capped =
        if not (fl.is_finite read.1) || fl.leq read.1 (fl.lit 0) || fl.lt (fl.lit 10000000) read.1
        then fl.lit 100000
        else read.1 in
      (hp, if fl.lt capped hp then hp else capped)

  unfoldable pub yaw_of : (other : ℕ) → fl.F
  yaw_of other = elim (vec fl vm (ptr vm other 0x208) 0x1f0) [ none ↦ fl.lit 0 | some rot ↦ rot.y ]

  -- The sixteen bones.
  unfoldable pub bones_of : Vec fl.F → (yaw : fl.F) → List (Vec fl.F)
  bones_of pos yaw =
      let yaw_rad = fl.div (fl.mul yaw fl.pi) (fl.lit 180000) in
      let right_x = fl.neg (fl.sin yaw_rad) in
      let right_y = fl.cos yaw_rad in
      (raised fl pos (fl.lit 75000)
        ∷ raised fl pos (fl.lit 60000)
        ∷ raised fl pos (fl.lit 42000)
        ∷ raised fl pos (fl.lit 0)
        ∷ [])
      ++ limb fl (left_of fl pos right_x right_y (fl.lit 18000) (fl.lit 56000)) (fl.lit 24000)
          (fl.lit 22000)
      ++ limb fl (right_of fl pos right_x right_y (fl.lit 18000) (fl.lit 56000)) (fl.lit 24000)
          (fl.lit 22000)
      ++ limb fl (left_of fl pos right_x right_y (fl.lit 12000) (fl.lit 0)) (fl.lit 42000)
          (fl.lit 43000)
      ++ limb fl (right_of fl pos right_x right_y (fl.lit 12000) (fl.lit 0)) (fl.lit 42000)
          (fl.lit 43000)

  -- An actor at the origin has not been spawned.
  unfoldable pub at_origin : Vec fl.F → Bool
  at_origin pos =
      fl.lt (fl.abs pos.x) (fl.lit 1000)
      && fl.lt (fl.abs pos.y) (fl.lit 1000)
      && fl.lt (fl.abs pos.z) (fl.lit 1000)

  -- The player that is shown of a character at a position.
  unfoldable pub player_of : (camera_pos pos : Vec fl.F) → (other st : ℕ) → PlayerMeta → Player fl.F
  player_of camera_pos pos other st m =
      let health = health_of other st in
      record {
        pos = pos;
        health = health.0;
        health_max = health.1;
        yaw = yaw_of other;
        team_id = m.team_id;
        is_bot = m.is_bot;
        health_status = le (raw vm (add64 other 0x2be8) 1);
        name = m.name;
        distance = distance fl pos camera_pos;
        head_pos = raised fl pos (fl.lit 75000);
        feet_pos = lowered fl pos (fl.lit 85000);
        bones = bones_of pos (yaw_of other);
      }

  unfoldable pub see_character :
      (camera_pos : Vec fl.F) → (local_team pawn other : ℕ) → List (Entry PlayerMeta) → Sight fl.F
  see_character camera_pos local_team pawn other cache =
      let st = player_state vm other in
      let m = meta_of vm local_team other st cache in
      let placed : Sight fl.F = elim (position fl vm other) [
        | none ↦ lost
        | some pos ↦
            if at_origin pos
            then skipped
            else if not (le (raw vm (add64 other 0xe7c) 1) == 0)
            then skipped
            else if le (raw vm (add64 other 0x2be8) 1) == 2
            then skipped
            else shown (player_of camera_pos pos other st m.0) m.1
      ] in
      if other == 0 || other == pawn then skipped else placed

  -- The loop with `room` players to go: the array that is left, the players and the cache.
  unfoldable pub tick_players :
      (camera_pos : Vec fl.F)
      → (local_team pawn room : ℕ) → (characters : List ℕ) → List (Entry PlayerMeta)
      → List ℕ × List (Player fl.F) × List (Entry PlayerMeta)
  tick_players camera_pos local_team pawn room [] cache = ([], [], cache)
  tick_players camera_pos local_team pawn room (other ∷ others) cache =
      let passed = tick_players camera_pos local_team pawn room others cache in
      let seen : List ℕ × List (Player fl.F) × List (Entry PlayerMeta) =
        elim (see_character camera_pos local_team pawn other cache) [
          | skipped ↦ (other ∷ passed.0, passed.1, passed.2)
          | lost ↦ (0 ∷ passed.0, passed.1, passed.2)
          | shown p cache' ↦
              let rest = tick_players camera_pos local_team pawn (room - 1) others cache' in
              (other ∷ rest.0, p ∷ rest.1, rest.2)
        ] in
      if room == 0 then (other ∷ others, [], cache) else seen
