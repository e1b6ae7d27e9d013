-- ===== src/Radar/Tick/Teammates.antt =====
-- A bot in the cache that turns out to be a teammate.
use perfect_build_radar_touc.Base.{
  ℕ, ◌/◌, ◌%◌, ◌<◌, ◌≡◌, ◌≢◌, refl, ◌∙◌, true, false, ◌||◌, List, none, some, arith, ◌==◌, ==_refl,
  ltb, length, Bytes, add64, le, fit,
}
use perfect_build_radar_touc.Remote.{Vm}
use perfect_build_radar_touc.Radar.Meta.{
  Entry, PlayerMeta, find_meta, store_player_meta, player_meta_cache_size,
}
use perfect_build_radar_touc.Radar.Meta.Laws.{has_actor, find_meta-store_meta}
use perfect_build_radar_touc.Radar.Tick.{raw}
use perfect_build_radar_touc.Radar.Tick.Players.{no_teammate_bot, read_meta, meta_of}

-- A character that is not in the cache.
meta_of-new :
    (vm : Vm) (l other st : ℕ) (cache : List (Entry PlayerMeta))
    → find_meta cache other ≡ none
    → meta_of vm l other st cache ≡ (
      read_meta vm l st,
      store_player_meta cache other
          (read_meta vm l st).team_id
          (read_meta vm l st).is_bot
          (read_meta vm l st).name,
    )
unfolding meta_of
meta_of-new vm l other st cache h = rw (h, meta_of) refl

meta_of-cached :
    (vm : Vm) (l other st : ℕ) (cache : List (Entry PlayerMeta)) (m : PlayerMeta)
    → find_meta cache other ≡ some m
    → meta_of vm l other st cache ≡ (m, cache)
unfolding meta_of
meta_of-cached vm l other st cache m h = rw (h, meta_of) refl

stored :
    (cache : List (Entry PlayerMeta)) (other team_id is_bot : ℕ) (name : Bytes)
    → length cache < player_meta_cache_size
    → find_meta (store_player_meta cache other team_id is_bot name) other
      ≡ some (record { team_id = team_id; is_bot = is_bot; name = fit 32 name })
unfolding store_player_meta
stored cache other team_id is_bot name h =
    let m : PlayerMeta = record { team_id = team_id; is_bot = is_bot; name = fit 32 name } in
    let room : (has_actor cache other || ltb (length cache) player_meta_cache_size) ≡ true =
      ground (arith, h) in
    find_meta-store_meta player_meta_cache_size cache other other m ∙ rw (==_refl other, room) refl

read_meta-bot :
    (vm : Vm) (st : ℕ)
    → st ≢ 0
    → le (raw vm (add64 st 0x4dc) 1) / 4 % 2 ≡ 1
    → (read_meta vm 0 st).is_bot ≡ 1
unfolding read_meta no_teammate_bot
read_meta-bot vm st hs hb =
    let there : (st == 0) ≡ false = ground (arith, hs) in
    let flag : (le (raw vm (add64 st 0x4dc) 1) / 4 % 2 == 1) ≡ true = ground (arith, hb) in
    rw (there, flag) refl

-- When a character with the bot flag is seen for the first time while the local team is not known,
-- and the cache has room, then it is still a bot in a later tick, for any target by then, in which
-- the local team is known and is its own: the rule for teammates does not reach what is cached.
pub meta_of-teammate_bot :
    (vm later : Vm) (other st st' : ℕ) (cache : List (Entry PlayerMeta))
    → find_meta cache other ≡ none
    → length cache < player_meta_cache_size
    → st ≢ 0
    → le (raw vm (add64 st 0x4dc) 1) / 4 % 2 ≡ 1
    → ((meta_of later
          (meta_of vm 0 other st cache).0.team_id
          other
          st'
          (meta_of vm 0 other st cache).1).0.is_bot
        ≡ 1)
      × ((meta_of later
            (meta_of vm 0 other st cache).0.team_id
            other
            st'
            (meta_of vm 0 other st cache).1).0.team_id
          ≡ (meta_of vm 0 other st cache).0.team_id)
meta_of-teammate_bot vm later other st st' cache absent room hs hb =
    let m = read_meta vm 0 st in
    let kept : PlayerMeta = record {
      team_id = m.team_id;
      is_bot = m.is_bot;
      name = fit 32 m.name;
    } in
    rw
      (
        meta_of-new vm 0 other st cache absent,
        meta_of-cached later m.team_id other st'
            (store_player_meta cache other m.team_id m.is_bot m.name) kept
            (stored cache other m.team_id m.is_bot m.name room),
      )
      (read_meta-bot vm st hs hb, refl)
