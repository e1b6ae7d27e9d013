-- ===== src/Radar/Items.antt =====
-- `resolve_item_info`, `resolve_item_from_actor_name` and `resolve_vehicle_name`. A buffer of
-- `max_len` bytes is the text in it; a null pointer for a name is the empty text, which both
-- functions treat alike.
pub mod Table
pub mod Laws
pub mod Shadow
mod Tests
use perfect_build_radar_touc.Base.{
  ℕ, ◌/◌, Bool, true, false, ◌||◌, List, [], ◌∷◌, Option, none, some, ◌==◌, if◌then◌else◌, Bytes, ℤ,
  pos, negsuc, codes, contains, fit,
}
use Table.{Case, Rule, item_cases, prefix_cases, actor_rules, vehicle_rules}

unfoldable pub find_case : List Case → ℕ → Option Case
find_case [] label = none
find_case (c ∷ cs) label = if c.label == label then some c else find_case cs label

abbrev pub loot_crate : Case
loot_crate = record { label = 0; name = codes "Loot Crate"; category = 5 }

-- The case taken for `item_id`: its own, that of `item_id / 1000`, or the default. No case has a
-- label below 1, so a negative number goes to the default.
unfoldable pub item_case : ℤ → Case
item_case (negsuc n) = loot_crate
item_case (pos item_id) = elim (find_case item_cases item_id) [
  | some c ↦ c
  | none ↦ elim (find_case prefix_cases (item_id / 1000)) [ some c ↦ c | none ↦ loot_crate ]
]

unfoldable pub resolve_item_info : ℤ → ℕ → Bytes × ℕ
resolve_item_info item_id max_len =
    (fit max_len (item_case item_id).name, (item_case item_id).category)

unfoldable pub contains_any : Bytes → List Bytes → Bool
contains_any hay [] = false
contains_any hay (needle ∷ needles) = contains hay needle || contains_any hay needles

-- The first rule whose test holds.
unfoldable pub first_rule : List Rule → Bytes → Option Rule
first_rule [] text = none
first_rule (r ∷ rules) text = if contains_any text r.needles then some r else first_rule rules text

-- The name and the category, given those that stand there before.
unfoldable pub resolve_item_from_actor_name : Bytes → ℕ → Bytes × ℕ → Bytes × ℕ
resolve_item_from_actor_name [] max_len old = old
resolve_item_from_actor_name (c ∷ aname) max_len old = elim (first_rule actor_rules (c ∷ aname)) [
  | none ↦ old
  | some r ↦ (fit max_len r.name, r.category)
]

unfoldable pub resolve_vehicle_name : Bytes → ℕ → Bytes
resolve_vehicle_name [] max_len = fit max_len (codes "Vehicle")
resolve_vehicle_name (c ∷ cls_name) max_len = elim (first_rule vehicle_rules (c ∷ cls_name)) [
  | none ↦ fit max_len (codes "Vehicle")
  | some r ↦ fit max_len r.name
]
