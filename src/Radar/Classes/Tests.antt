-- ===== src/Radar/Classes/Tests.antt =====
-- A level with an array of five actors of one class.
use perfect_build_radar_touc.Base.{
  ℕ, ◌≡◌, refl, true, false, [], ◌∷◌, ◌++◌, some, arith, ◌==◌, if◌then◌else◌, le, Bytes, codes,
  contains, is_prefix, length,
}
use perfect_build_radar_touc.Remote.{Vm, read, fetch, read_ptr, validate_ptr}
use perfect_build_radar_touc.Radar.Items.{contains_any}
use perfect_build_radar_touc.Radar.World.{ptr, array, array_header}
use perfect_build_radar_touc.Radar.Classes.{
  cls_ignore, cls_vehicle, cls_item, Resolver, class_name, classify_name, super_type, find_class,
  remember, classify_class,
}
use perfect_build_radar_touc.Radar.Classes.Level.{
  Actors, add_actor, place, visit, visit_chunk, visit_chunks, find_actors, scan_persistent_level,
}
use perfect_build_radar_touc.Radar.Classes.Level.Bounds.{
  IsActorList, IsWellFormed, scan_persistent_level-IsWellFormed,
}

abbrev actor_word : Bytes
actor_word = 0 ∷ 0x80 ∷ 0 ∷ 0 ∷ 0 ∷ 0 ∷ 0 ∷ 0 ∷ []

abbrev second : ℕ → ℕ
second a = if a == 0x4030 then 0x60 else if a == 0x8010 then 0x90 else 0

-- Words of 8 bytes, the array header of 16, and the five actors.
abbrev game : Vm
game a n =
    if n == 8
    then some (0 ∷ second a ∷ 0 ∷ 0 ∷ 0 ∷ 0 ∷ 0 ∷ 0 ∷ [])
    else if n == 16
    then some (0 ∷ 0x70 ∷ 0 ∷ 0 ∷ 0 ∷ 0 ∷ 0 ∷ 0 ∷ 5 ∷ 0 ∷ 0 ∷ 0 ∷ 5 ∷ 0 ∷ 0 ∷ 0 ∷ [])
    else some (actor_word ++ actor_word ++ actor_word ++ actor_word ++ actor_word)

abbrev names : Resolver
names = some (λ a. (true, codes "BP_PlayerCharacter"))

abbrev nobody : Actors
nobody = record { characters = []; vehicles = []; items = []; classes = [] }

classify_name_runs :
    (classify_name (codes "PlayerController") cls_ignore ≡ cls_ignore)
    × (classify_name (codes "VH_Buggy_C") cls_ignore ≡ cls_vehicle)
    × (classify_name (codes "PickUpWrapper") cls_ignore ≡ cls_item)
unfolding classify_name contains_any contains is_prefix
classify_name_runs = (refl, refl, refl)

scan_runs :
    ((scan_persistent_level names game 0x4000 nobody).0 ≡ true)
    × ((scan_persistent_level names game 0x4000 nobody).1.characters
        ≡ 0x8000 ∷ 0x8000 ∷ 0x8000 ∷ 0x8000 ∷ 0x8000 ∷ [])
    × (length (scan_persistent_level names game 0x4000 nobody).1.classes ≡ 1)
unfolding scan_persistent_level find_actors visit_chunks visit_chunk visit place add_actor
    classify_class find_class remember class_name classify_name super_type contains_any contains
    is_prefix array array_header ptr read_ptr fetch read validate_ptr le
scan_runs = (refl, refl, refl)

nobody-IsWellFormed : IsWellFormed nobody
unfolding IsWellFormed IsActorList
nobody-IsWellFormed = ((omega arith, tt), (omega arith, tt), (omega arith, tt), omega arith)

scan_persistent_level-IsWellFormed_example :
    IsWellFormed (scan_persistent_level names game 0x4000 nobody).1
    × ((scan_persistent_level names game 0x4000 nobody).0 ≡ false
        → (scan_persistent_level names game 0x4000 nobody).1 ≡ nobody)
scan_persistent_level-IsWellFormed_example =
    scan_persistent_level-IsWellFormed names game 0x4000 nobody nobody-IsWellFormed
