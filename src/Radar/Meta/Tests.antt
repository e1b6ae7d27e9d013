-- ===== src/Radar/Meta/Tests.antt =====
-- The caches on small inputs, and the theorems at inputs that meet their hypotheses.
use perfect_build_radar_touc.Base.{
  ℕ, ◌≡◌, refl, ◌||◌, List, [], ◌∷◌, none, some, ltb, ◌==◌, if◌then◌else◌, length, codes,
}
use perfect_build_radar_touc.Radar.Meta.{Entry, entry_for, find_meta, store_meta, store_player_meta}
use perfect_build_radar_touc.Radar.Meta.Laws.{has_actor, find_meta-store_meta}

abbrev two : List (Entry ℕ)
two = entry_for 10 1 ∷ entry_for 20 2 ∷ []

-- A full cache takes a new value for an old actor, and drops a new actor.
store_runs :
    (find_meta (store_meta 2 two 20 9) 20 ≡ some 9)
    × (find_meta (store_meta 2 two 30 9) 30 ≡ none)
    × (find_meta (store_meta 3 two 30 9) 30 ≡ some 9)
unfolding find_meta store_meta
store_runs = (refl, refl, refl)

store_player_meta_cuts :
    find_meta (store_player_meta [] 5 1 0 (codes "0123456789012345678901234567890123456789")) 5
    ≡ some (record { team_id = 1; is_bot = 0; name = codes "0123456789012345678901234567890" })
unfolding find_meta store_player_meta
store_player_meta_cuts = refl

find_meta-store_meta_example : find_meta (store_meta 2 two 20 9) 10 ≡ (
    if 20 == 10
    then (if has_actor two 20 || ltb (length two) 2 then some 9 else none)
    else find_meta two 10)
find_meta-store_meta_example = find_meta-store_meta 2 two 20 10 9
