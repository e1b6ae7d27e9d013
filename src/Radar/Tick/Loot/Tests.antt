-- ===== src/Radar/Tick/Loot/Tests.antt =====
-- Two items and a place that is free.
use perfect_build_radar_touc.Base.{
  ◌≡◌, refl, [], ◌∷◌, none, some, ◌==◌, if◌then◌else◌, replicate, le, codes, contains, is_prefix,
  same_text,
}
use perfect_build_radar_touc.Remote.{Vm, read, fetch, read_ptr, validate_ptr}
use perfect_build_radar_touc.Radar.World.{ptr}
use perfect_build_radar_touc.Radar.Items.Table.{item_cases, prefix_cases, actor_rules}
use perfect_build_radar_touc.Radar.Items.{
  find_case, item_case, resolve_item_info, contains_any, first_rule, resolve_item_from_actor_name,
}
use perfect_build_radar_touc.Radar.Classes.{Resolver}
use perfect_build_radar_touc.Radar.Tick.{raw}
use perfect_build_radar_touc.Radar.Tick.Loot.{
  item_id_of, generic, resolve_by_name, retry, name_item,
}

-- Every pointer is 0x50000 and every position the origin; the number at 0x30758 is 101004, and
-- every other is 0.
abbrev target : Vm
target a n =
    if n == 8
    then some (0 ∷ 0 ∷ 5 ∷ 0 ∷ 0 ∷ 0 ∷ 0 ∷ 0 ∷ [])
    else if n == 12
    then some (replicate 12 0)
    else if n == 4
    then some ((if a == 0x30758 then 140 ∷ 138 ∷ 1 ∷ 0 ∷ [] else replicate 4 0))
    else none

abbrev names : Resolver
names = some (λ a. (a == 0x40018, codes "BP_M416_C"))

name_item_runs :
    (name_item names target 0x30000 (item_id_of target 0x30000) ≡ (codes "M416", 1))
    × (name_item names target 0x40000 (item_id_of target 0x40000) ≡ (codes "M416", 1))
    × (name_item none target 0x40000 (item_id_of target 0x40000) ≡ (codes "Supply", 5))
unfolding name_item item_id_of generic resolve_by_name retry resolve_item_info
    resolve_item_from_actor_name find_case item_case item_cases prefix_cases actor_rules first_rule
    contains_any contains is_prefix same_text raw read fetch read_ptr ptr validate_ptr le
name_item_runs = (refl, refl, refl)
