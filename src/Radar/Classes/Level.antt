-- ===== src/Radar/Classes/Level.antt =====
-- `scan_persistent_level`.
pub mod Bounds
use perfect_build_radar_touc.Base.{
  ℕ, zero, suc, ◌-◌, ◌+◌, ◌*◌, Bool, true, false, not, ◌&&◌, ◌||◌, List, [], ◌∷◌, ◌++◌, Option,
  none, some, ltb, leb, ◌==◌, if◌then◌else◌, take, drop, length, Bytes, add64, le,
}
use perfect_build_radar_touc.Remote.{Vm, fetch, validate_ptr}
use perfect_build_radar_touc.Radar.World.{ptr, array}
use perfect_build_radar_touc.Radar.Classes.{
  ClassType, cls_player, cls_vehicle, cls_item, ClassEntry, Resolver, classify_class,
}

-- The candidate actors, and the class cache.
pub record Actors : Type 0 where
  pub characters : List ℕ
  pub vehicles : List ℕ
  pub items : List ℕ
  pub classes : List ClassEntry

-- An actor is added to a list while there is room.
unfoldable pub add_actor : (limit : ℕ) → List ℕ → ℕ → List ℕ
add_actor limit xs actor = if ltb (length xs) limit then xs ++ actor ∷ [] else xs

unfoldable pub place : ClassType → ℕ → Actors → Actors
place cls_player actor s = record s { characters = add_actor 512 s.characters actor }
place cls_vehicle actor s = record s { vehicles = add_actor 64 s.vehicles actor }
place cls_item actor s = record s { items = add_actor 256 s.items actor }
place _ actor s = s

module _ (resolver : Resolver) (vm : Vm) where
  unfoldable pub visit : ℕ → Actors → Actors
  visit actor s =
      let cls = ptr vm actor 0x10 in
      let t = classify_class resolver vm s.classes cls actor in
      if not (validate_ptr actor)
      then s
      else if cls == 0
      then s
      else place t.0 actor (record s { classes = t.1 })

  -- The actors of a chunk, one after another; the fuel is their number.
  unfoldable pub visit_chunk : ℕ → Bytes → Actors → Actors
  visit_chunk zero chunk s = s
  visit_chunk (suc n) chunk s = visit_chunk n (drop 8 chunk) (visit (le (take 8 chunk)) s)

  -- The chunks from `start` on; each moves on by 512 actors, so one round for each is enough.
  unfoldable pub visit_chunks : (data_ptr count : ℕ) → (fuel start : ℕ) → Actors → Actors
  visit_chunks data_ptr count zero start s = s
  visit_chunks data_ptr count (suc fuel) start s =
      let chunk_size = if ltb 512 (count - start) then 512 else count - start in
      let next : Actors = elim (fetch vm (add64 data_ptr (start * 8)) (chunk_size * 8)) [
        | none ↦ s
        | some chunk ↦ visit_chunk chunk_size chunk s
      ] in
      let rest = visit_chunks data_ptr count fuel (start + 512) next in
      if ltb start count then rest else s

  -- The first of the offsets that holds an array of at least 5.
  unfoldable pub find_actors : (level : ℕ) → List ℕ → Option (ℕ × ℕ)
  find_actors level [] = none
  find_actors level (offset ∷ offsets) =
      let rest = find_actors level offsets in
      elim (array vm level offset 8192) [
        | none ↦ rest
        | some a ↦ if leb 5 a.1 then some a else rest
      ]

  -- The result and the state that is left. The class cache is also kept up by a scan that finds
  -- nothing to place.
  unfoldable pub scan_persistent_level : (w : ℕ) → Actors → Bool × Actors
  scan_persistent_level w s =
      let level = ptr vm w 0x30 in
      let cleared = record s { characters = []; vehicles = []; items = [] } in
      if level == 0
      then (false, s)
      else elim (find_actors level (0xa0 ∷ 0xb0 ∷ 0x98 ∷ 0xa8 ∷ 0x90 ∷ 0x70 ∷ [])) [
        | none ↦ (false, s)
        | some a ↦ if a.0 == 0 then (false, s) else (true, visit_chunks a.0 a.1 (suc a.1) 0 cleared)
      ]
