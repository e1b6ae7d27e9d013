-- ===== src/Radar/Items/Tests.antt =====
-- Items, actors and vehicles by their tables, and the theorems at concrete inputs.
use perfect_build_radar_touc.Base.{
  ◌≡◌, ◌/◌, refl, false, [], pos, negsuc, codes, same_text, contains,
}
use perfect_build_radar_touc.Radar.Items.Table.{
  item_cases, prefix_cases, actor_rules, vehicle_rules,
}
use perfect_build_radar_touc.Radar.Items.{
  find_case, item_case, resolve_item_info, contains_any, first_rule, resolve_item_from_actor_name,
  resolve_vehicle_name,
}
use perfect_build_radar_touc.Radar.Items.Laws.{prefix_category, resolve_item_info-category}
use perfect_build_radar_touc.Radar.Items.Shadow.{resolve_item_from_actor_name-ne-m249}

items_run :
    (resolve_item_info (pos 101004) 32 ≡ (codes "M416", 1))
    × (resolve_item_info (pos 101004) 4 ≡ (codes "M41", 1))
    × (resolve_item_info (pos 106001) 32 ≡ (codes "Pistol", 1))
    × (resolve_item_info (pos 7) 32 ≡ (codes "Loot Crate", 5))
    × (resolve_item_info (negsuc 0) 32 ≡ (codes "Loot Crate", 5))
unfolding resolve_item_info item_case find_case item_cases prefix_cases
items_run = (refl, refl, refl, refl, refl)

-- The actor of an M249 is resolved to M24.
actors_run :
    (resolve_item_from_actor_name (codes "BP_MG_M249_C") 32 ([], 5) ≡ (codes "M24", 1))
    × (resolve_item_from_actor_name (codes "BP_Armor_2_C") 32 ([], 5) ≡ (codes "Vest L2", 2))
    × (resolve_item_from_actor_name (codes "BP_Chair_C") 32 ([], 5) ≡ ([], 5))
unfolding resolve_item_from_actor_name first_rule actor_rules contains_any contains
actors_run = (refl, refl, refl)

vehicles_run :
    (resolve_vehicle_name (codes "VH_Dacia_4") 32 ≡ codes "Dacia")
    × (resolve_vehicle_name (codes "VH_Hover") 32 ≡ codes "Vehicle")
unfolding resolve_vehicle_name first_rule vehicle_rules contains_any contains
vehicles_run = (refl, refl)

resolve_item_info-category_example :
    (resolve_item_info (pos 504001) 32).1 ≡ prefix_category (504001 / 1000)
resolve_item_info-category_example = resolve_item_info-category 504001 32

resolve_item_from_actor_name-ne-m249_example :
    same_text (resolve_item_from_actor_name (codes "BP_MG_M249_C") 32 ([], 5)).0 (codes "M249")
    ≡ false
resolve_item_from_actor_name-ne-m249_example =
    resolve_item_from_actor_name-ne-m249 (codes "BP_MG_M249_C") ([], 5) blank
  where
    blank : same_text [] (codes "M249") ≡ false
    blank = unfold same_text in refl
