-- ===== src/Radar/Tick/Tests.antt =====
-- A character with the bot flag.
use perfect_build_radar_touc.Base.{
  ℕ, none, false, ◌≤◌, ◌≡◌, refl, arith, [], ◌∷◌, some, ◌==◌, if◌then◌else◌, replicate, length, All,
  le, codes, ◌⊎◌, ◌<◌,
}
use perfect_build_radar_touc.Remote.{Vm, read, fetch, validate_ptr}
use perfect_build_radar_touc.Radar.Text.{read_fstring}
use perfect_build_radar_touc.Radar.Meta.{find_meta}
use perfect_build_radar_touc.Radar.Tick.{raw}
use perfect_build_radar_touc.Radar.Tick.Sample.{whole, origin}
use perfect_build_radar_touc.Radar.Tick.Players.{
  max_players, no_teammate_bot, read_meta, meta_of, tick_players,
}
use perfect_build_radar_touc.Radar.Tick.Bots.{IsRuledValue}
use perfect_build_radar_touc.Radar.Meta.Keeps.{Keeps}
use perfect_build_radar_touc.Radar.Tick.Loop.{IsRuledPlayer, tick_players-IsRuled}
use perfect_build_radar_touc.Radar.Tick.Vehicles.{max_vehicles}
use perfect_build_radar_touc.Radar.Tick.Loot.{max_items}
use perfect_build_radar_touc.Radar.Tick.Loot.Shown.{IsShown, IsLabelled}
use perfect_build_radar_touc.Radar.Tick.Frame.{Ticker, tick_frame}
use perfect_build_radar_touc.Radar.Tick.Whole.{tick_frame-IsShown}
use perfect_build_radar_touc.Radar.Tick.Teammates.{meta_of-teammate_bot}

-- Every pointer is 0x50000, and the character at 0x30000 is alive.
abbrev target : Vm
target a n =
    if n == 8
    then some (0 ∷ 0 ∷ 5 ∷ 0 ∷ 0 ∷ 0 ∷ 0 ∷ 0 ∷ [])
    else if n == 12
    then some (replicate 12 9)
    else if n == 4
    then some (7 ∷ 0 ∷ 0 ∷ 0 ∷ [])
    else if n == 1
    then some ((if a == 0x30e7c then 0 else 4) ∷ [])
    else none

-- Who is shown as a bot, first without a local team and then with that of the character.
tick_players_runs :
    ((meta_of target 0 0x30000 0x50000 []).0
      ≡ record { team_id = 7; is_bot = 1; name = codes "Bot" })
    × ((meta_of target 7 0x30000 0x50000 []).0
        ≡ record { team_id = 7; is_bot = 0; name = codes "Player" })
unfolding meta_of find_meta read_meta no_teammate_bot raw read fetch read_fstring validate_ptr le
tick_players_runs = (refl, refl)

tick_players-IsRuled_example :
    (length (tick_players whole target origin 7 0 max_players (0x30000 ∷ []) []).0 ≡ 1)
    × (length (tick_players whole target origin 7 0 max_players (0x30000 ∷ []) []).1 ≤ max_players)
    × All (IsRuledPlayer 7) (tick_players whole target origin 7 0 max_players (0x30000 ∷ []) []).1
    × All
        (Keeps (IsRuledValue 7))
        (tick_players whole target origin 7 0 max_players (0x30000 ∷ []) []).2
tick_players-IsRuled_example = tick_players-IsRuled whole target origin 7 0 (0x30000 ∷ []) [] tt

meta_of-teammate_bot_example :
    ((meta_of target
        (meta_of target 0 0x30000 0x50000 []).0.team_id
        0x30000
        0x50000
        (meta_of target 0 0x30000 0x50000 []).1).0.is_bot
      ≡ 1)
    × ((meta_of target
          (meta_of target 0 0x30000 0x50000 []).0.team_id
          0x30000
          0x50000
          (meta_of target 0 0x30000 0x50000 []).1).0.team_id
        ≡ (meta_of target 0 0x30000 0x50000 []).0.team_id)
unfolding find_meta raw read le
meta_of-teammate_bot_example =
    meta_of-teammate_bot target target 0x30000 0x50000 0x50000 [] refl (omega arith)
      (λ h. ground (arith, h)) refl

abbrev ticker : Ticker
ticker = record {
  actors = record { characters = 0x30000 ∷ []; vehicles = []; items = 0 ∷ []; classes = [] };
  player_cache = [];
  item_cache = [];
  cached_local_team = 7;
}

tick_frame-IsShown_example :
    (length (tick_frame whole none target false 0x10000 0x20000 ticker).0.players ≤ max_players)
    × All
        (IsRuledPlayer (tick_frame whole none target false 0x10000 0x20000 ticker).0.local_team)
        (tick_frame whole none target false 0x10000 0x20000 ticker).0.players
    × All
        (Keeps
          (IsRuledValue (tick_frame whole none target false 0x10000 0x20000 ticker).0.local_team))
        (tick_frame whole none target false 0x10000 0x20000 ticker).1.player_cache
    × (length (tick_frame whole none target false 0x10000 0x20000 ticker).0.vehicles ≤ max_vehicles)
    × (length (tick_frame whole none target false 0x10000 0x20000 ticker).0.items ≤ max_items)
    × All IsShown (tick_frame whole none target false 0x10000 0x20000 ticker).0.items
    × All
        (Keeps IsLabelled)
        (tick_frame whole none target false 0x10000 0x20000 ticker).1.item_cache
    × ((◌≡◌ {A = ℕ} 7 0)
        ⊎ (0 < (tick_frame whole none target false 0x10000 0x20000 ticker).0.local_team))
    × ((tick_frame whole none target false 0x10000 0x20000 ticker).0.local_team
        ≡ (tick_frame whole none target false 0x10000 0x20000 ticker).1.cached_local_team)
    × (((tick_frame whole none target false 0x10000 0x20000 ticker).2 ≡ 2)
        ⊎ ((tick_frame whole none target false 0x10000 0x20000 ticker).2 ≡ 3))
tick_frame-IsShown_example = tick_frame-IsShown whole none target false 0x10000 0x20000 ticker tt tt
