-- ===== src/Radar/Items/Table.antt =====
-- The tables of `resolve_item_info`, `resolve_item_from_actor_name` and `resolve_vehicle_name`.
use perfect_build_radar_touc.Base.{ℕ, List, [], ◌∷◌, Bytes, codes}

-- A `case` of a switch: the label, the name and the category.
pub record Case : Type 0 where
  pub label : ℕ
  pub name : Bytes
  pub category : ℕ

-- An `if` over `strstr` tests: the texts looked for, the name and the category.
pub record Rule : Type 0 where
  pub needles : List Bytes
  pub name : Bytes
  pub category : ℕ

abbrev case_of : ℕ → Bytes → ℕ → Case
case_of label name category = record { label = label; name = name; category = category }

abbrev rule : List Bytes → Bytes → ℕ → Rule
rule needles name category = record { needles = needles; name = name; category = category }

-- `switch (item_id)`.
unfoldable pub item_cases : List Case
item_cases =
    case_of 101001 (codes "AKM") 1
    ∷ case_of 101002 (codes "M16A4") 1
    ∷ case_of 101003 (codes "SCAR-L") 1
    ∷ case_of 101004 (codes "M416") 1
    ∷ case_of 101005 (codes "Groza") 1
    ∷ case_of 101006 (codes "AUG") 1
    ∷ case_of 101007 (codes "QBZ") 1
    ∷ case_of 101008 (codes "M762") 1
    ∷ case_of 101009 (codes "Mk47") 1
    ∷ case_of 101010 (codes "G36C") 1
    ∷ case_of 101011 (codes "FAMAS") 1
    ∷ case_of 101012 (codes "ACE32") 1
    ∷ case_of 101013 (codes "HoneyBadger") 1
    ∷ case_of 102001 (codes "UMP45") 1
    ∷ case_of 102002 (codes "Micro Uzi") 1
    ∷ case_of 102003 (codes "Vector") 1
    ∷ case_of 102004 (codes "Tommy Gun") 1
    ∷ case_of 102005 (codes "PP-19 Bizon") 1
    ∷ case_of 102007 (codes "P90") 1
    ∷ case_of 103001 (codes "Kar98k") 1
    ∷ case_of 103002 (codes "M24") 1
    ∷ case_of 103003 (codes "AWM") 1
    ∷ case_of 103004 (codes "SKS") 1
    ∷ case_of 103005 (codes "VSS") 1
    ∷ case_of 103006 (codes "Mini14") 1
    ∷ case_of 103007 (codes "Mk14") 1
    ∷ case_of 103008 (codes "Win94") 1
    ∷ case_of 103009 (codes "SLR") 1
    ∷ case_of 103010 (codes "QBU") 1
    ∷ case_of 103011 (codes "Mosin") 1
    ∷ case_of 103012 (codes "AMR") 1
    ∷ case_of 103013 (codes "Mk12") 1
    ∷ case_of 104001 (codes "S686") 1
    ∷ case_of 104002 (codes "S1897") 1
    ∷ case_of 104003 (codes "S12K") 1
    ∷ case_of 104004 (codes "DBS") 1
    ∷ case_of 105001 (codes "M249") 1
    ∷ case_of 105002 (codes "DP-28") 1
    ∷ case_of 105010 (codes "MG3") 1
    ∷ case_of 501001 (codes "Helmet L1") 2
    ∷ case_of 501002 (codes "Helmet L2") 2
    ∷ case_of 501003 (codes "Helmet L3") 2
    ∷ case_of 501006 (codes "Helmet L3") 2
    ∷ case_of 502001 (codes "Vest L1") 2
    ∷ case_of 502002 (codes "Vest L2") 2
    ∷ case_of 502003 (codes "Vest L3") 2
    ∷ case_of 503001 (codes "Bag L1") 2
    ∷ case_of 503002 (codes "Bag L2") 2
    ∷ case_of 503003 (codes "Bag L3") 2
    ∷ case_of 601001 (codes "Bandage") 3
    ∷ case_of 601002 (codes "FirstAid") 3
    ∷ case_of 601003 (codes "MedKit") 3
    ∷ case_of 601004 (codes "EnergyDrink") 3
    ∷ case_of 601005 (codes "Painkiller") 3
    ∷ case_of 601006 (codes "Adrenaline") 3
    ∷ case_of 602001 (codes "Frag Grenade") 5
    ∷ case_of 602002 (codes "Smoke") 5
    ∷ case_of 602003 (codes "Molotov") 5
    ∷ case_of 602004 (codes "Stun Grenade") 5
    ∷ case_of 603001 (codes "Flare Gun") 5
    ∷ case_of 504001 (codes "Air Drop") 5
    ∷ case_of 504002 (codes "Player Crate") 5
    ∷ case_of 203001 (codes "RedDot") 4
    ∷ case_of 203002 (codes "Holo") 4
    ∷ case_of 203003 (codes "2x Scope") 4
    ∷ case_of 203004 (codes "4x Scope") 4
    ∷ case_of 203005 (codes "3x Scope") 4
    ∷ case_of 203014 (codes "6x Scope") 4
    ∷ case_of 203015 (codes "8x Scope") 4
    ∷ case_of 301001 (codes "5.56 Ammo") 4
    ∷ case_of 302001 (codes "7.62 Ammo") 4
    ∷ case_of 303001 (codes ".300 Mag") 4
    ∷ case_of 304001 (codes "9mm Ammo") 4
    ∷ case_of 305001 (codes ".45 Ammo") 4
    ∷ case_of 201009 (codes "AR Suppressor") 4
    ∷ case_of 201010 (codes "SR Suppressor") 4
    ∷ case_of 201011 (codes "AR Compensator") 4
    ∷ case_of 201012 (codes "SR Compensator") 4
    ∷ case_of 204009 (codes "AR Ext.QuickMag") 4
    ∷ case_of 204010 (codes "SR Ext.QuickMag") 4
    ∷ []

-- `switch (prefix)`.
unfoldable pub prefix_cases : List Case
prefix_cases =
    case_of 101 (codes "Assault Rifle") 1
    ∷ case_of 102 (codes "SMG") 1
    ∷ case_of 103 (codes "Sniper") 1
    ∷ case_of 104 (codes "Shotgun") 1
    ∷ case_of 105 (codes "LMG") 1
    ∷ case_of 106 (codes "Pistol") 1
    ∷ case_of 107 (codes "Special Weapon") 1
    ∷ case_of 108 (codes "Special Weapon") 1
    ∷ case_of 201 (codes "Muzzle") 4
    ∷ case_of 202 (codes "Grip") 4
    ∷ case_of 203 (codes "Scope") 4
    ∷ case_of 204 (codes "Magazine") 4
    ∷ case_of 205 (codes "Stock") 4
    ∷ case_of 301 (codes "5.56 Ammo") 4
    ∷ case_of 302 (codes "7.62 Ammo") 4
    ∷ case_of 303 (codes ".300 Mag") 4
    ∷ case_of 304 (codes "9mm Ammo") 4
    ∷ case_of 305 (codes ".45 Ammo") 4
    ∷ case_of 306 (codes "12 Gauge") 4
    ∷ case_of 307 (codes "Bolt / Arrow") 4
    ∷ case_of 501 (codes "Helmet") 2
    ∷ case_of 502 (codes "Armor Vest") 2
    ∷ case_of 503 (codes "Backpack") 2
    ∷ case_of 504 (codes "Player Crate") 5
    ∷ case_of 601 (codes "Medicine") 3
    ∷ case_of 602 (codes "Throwable") 5
    ∷ case_of 603 (codes "Flare Gun") 5
    ∷ case_of 605 (codes "Shop Token") 5
    ∷ []

-- The tests on an actor's name, in their order.
unfoldable pub actor_rules : List Rule
actor_rules =
    rule (codes "Smoke" ∷ []) (codes "Smoke") 5
    ∷ rule (codes "Grenade" ∷ codes "Frag" ∷ []) (codes "Frag Grenade") 5
    ∷ rule (codes "Burn" ∷ codes "Molotov" ∷ []) (codes "Molotov") 5
    ∷ rule (codes "Flash" ∷ codes "Stun" ∷ []) (codes "Stun Grenade") 5
    ∷ rule (codes "Flare" ∷ []) (codes "Flare Gun") 5
    ∷ rule (codes "M416" ∷ []) (codes "M416") 1
    ∷ rule (codes "AKM" ∷ []) (codes "AKM") 1
    ∷ rule (codes "AWM" ∷ []) (codes "AWM") 1
    ∷ rule (codes "M24" ∷ []) (codes "M24") 1
    ∷ rule (codes "Kar98" ∷ []) (codes "Kar98k") 1
    ∷ rule (codes "Groza" ∷ []) (codes "Groza") 1
    ∷ rule (codes "AUG" ∷ []) (codes "AUG") 1
    ∷ rule (codes "SCAR" ∷ []) (codes "SCAR-L") 1
    ∷ rule (codes "M762" ∷ []) (codes "M762") 1
    ∷ rule (codes "Mk14" ∷ []) (codes "Mk14") 1
    ∷ rule (codes "Mini14" ∷ []) (codes "Mini14") 1
    ∷ rule (codes "SKS" ∷ []) (codes "SKS") 1
    ∷ rule (codes "SLR" ∷ []) (codes "SLR") 1
    ∷ rule (codes "VSS" ∷ []) (codes "VSS") 1
    ∷ rule (codes "UMP" ∷ []) (codes "UMP45") 1
    ∷ rule (codes "Vector" ∷ []) (codes "Vector") 1
    ∷ rule (codes "Uzi" ∷ []) (codes "Micro Uzi") 1
    ∷ rule (codes "Tommy" ∷ []) (codes "Tommy Gun") 1
    ∷ rule (codes "Bizon" ∷ []) (codes "PP-19 Bizon") 1
    ∷ rule (codes "P90" ∷ []) (codes "P90") 1
    ∷ rule (codes "DBS" ∷ []) (codes "DBS") 1
    ∷ rule (codes "S12K" ∷ []) (codes "S12K") 1
    ∷ rule (codes "S686" ∷ []) (codes "S686") 1
    ∷ rule (codes "S1897" ∷ []) (codes "S1897") 1
    ∷ rule (codes "DP28" ∷ codes "DP-28" ∷ []) (codes "DP-28") 1
    ∷ rule (codes "M249" ∷ []) (codes "M249") 1
    ∷ rule (codes "MG3" ∷ []) (codes "MG3") 1
    ∷ rule (codes "Helmet_3" ∷ codes "Helmet_Lv3" ∷ []) (codes "Helmet L3") 2
    ∷ rule (codes "Helmet_2" ∷ codes "Helmet_Lv2" ∷ []) (codes "Helmet L2") 2
    ∷ rule (codes "Helmet_1" ∷ codes "Helmet_Lv1" ∷ []) (codes "Helmet L1") 2
    ∷ rule (codes "Armor_3" ∷ codes "Vest_3" ∷ []) (codes "Vest L3") 2
    ∷ rule (codes "Armor_2" ∷ codes "Vest_2" ∷ []) (codes "Vest L2") 2
    ∷ rule (codes "Armor_1" ∷ codes "Vest_1" ∷ []) (codes "Vest L1") 2
    ∷ rule (codes "Bag_3" ∷ codes "Backpack_3" ∷ []) (codes "Bag L3") 2
    ∷ rule (codes "Bag_2" ∷ codes "Backpack_2" ∷ []) (codes "Bag L2") 2
    ∷ rule (codes "Bag_1" ∷ codes "Backpack_1" ∷ []) (codes "Bag L1") 2
    ∷ rule (codes "FirstAid" ∷ []) (codes "FirstAid") 3
    ∷ rule (codes "MedKit" ∷ []) (codes "MedKit") 3
    ∷ rule (codes "Drink" ∷ []) (codes "EnergyDrink") 3
    ∷ rule (codes "Pain" ∷ []) (codes "Painkiller") 3
    ∷ rule (codes "Adrenaline" ∷ []) (codes "Adrenaline") 3
    ∷ rule (codes "Bandage" ∷ []) (codes "Bandage") 3
    ∷ rule (codes "8x" ∷ codes "Scope8x" ∷ []) (codes "8x Scope") 4
    ∷ rule (codes "6x" ∷ codes "Scope6x" ∷ []) (codes "6x Scope") 4
    ∷ rule (codes "4x" ∷ codes "Scope4x" ∷ []) (codes "4x Scope") 4
    ∷ rule (codes "3x" ∷ codes "Scope3x" ∷ []) (codes "3x Scope") 4
    ∷ rule (codes "2x" ∷ codes "Scope2x" ∷ []) (codes "2x Scope") 4
    ∷ rule (codes "RedDot" ∷ []) (codes "RedDot") 4
    ∷ rule (codes "Holo" ∷ []) (codes "Holo") 4
    ∷ rule (codes "556" ∷ codes "5.56" ∷ []) (codes "5.56 Ammo") 4
    ∷ rule (codes "762" ∷ codes "7.62" ∷ []) (codes "7.62 Ammo") 4
    ∷ rule (codes "300" ∷ codes "Magnum" ∷ []) (codes ".300 Mag") 4
    ∷ rule (codes "9mm" ∷ []) (codes "9mm Ammo") 4
    ∷ rule (codes "45" ∷ []) (codes ".45 Ammo") 4
    ∷ rule (codes "AirDrop" ∷ codes "DropBox" ∷ []) (codes "Air Drop") 5
    ∷ rule (codes "DeadBox" ∷ codes "PlayerDeadBox" ∷ codes "PickUpListWrapperActor" ∷ [])
        (codes "Player Crate") 5
    ∷ []

-- The chain of `resolve_vehicle_name`, which has no category.
unfoldable pub vehicle_rules : List Rule
vehicle_rules =
    rule (codes "Airplane" ∷ codes "AirDropPlane" ∷ codes "C130" ∷ codes "Plane" ∷ [])
      (codes "Airplane") 0
    ∷ rule (codes "Glider" ∷ codes "MotorGlider" ∷ []) (codes "Glider") 0
    ∷ rule (codes "Helicopter" ∷ codes "Heli" ∷ []) (codes "Helicopter") 0
    ∷ rule (codes "Buggy" ∷ []) (codes "Buggy") 0
    ∷ rule (codes "Dacia" ∷ []) (codes "Dacia") 0
    ∷ rule (codes "UAZ" ∷ codes "Uaz" ∷ []) (codes "UAZ") 0
    ∷ rule (codes "Motorcycle" ∷ codes "Bike" ∷ []) (codes "Motorcycle") 0
    ∷ rule (codes "Scooter" ∷ []) (codes "Scooter") 0
    ∷ rule (codes "Tuk" ∷ []) (codes "TukTuk") 0
    ∷ rule (codes "Boat" ∷ codes "Aqua" ∷ []) (codes "Boat") 0
    ∷ rule (codes "PickUp" ∷ []) (codes "PickUp") 0
    ∷ rule (codes "Bus" ∷ codes "Van" ∷ []) (codes "Minibus") 0
    ∷ rule (codes "Mirado" ∷ []) (codes "Mirado") 0
    ∷ rule (codes "BRDM" ∷ []) (codes "BRDM") 0
    ∷ []
