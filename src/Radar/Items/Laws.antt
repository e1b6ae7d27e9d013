-- ===== src/Radar/Items/Laws.antt =====
-- What the tables yield for every item.
use perfect_build_radar_touc.Base.{
  ℕ, ◌/◌, ◌-◌, ◌≤◌, ◌<◌, ◌≡◌, inl, inr, refl, Bool, true, ◌&&◌, List, [], ◌∷◌, none, some, arith,
  ◌==◌, leb, ltb, ==_iff, ℤ, pos, negsuc, fit, length, take_of_length, Bool-cases, Option-cases,
}
use perfect_build_radar_touc.Radar.Items.Table.{Case, item_cases, prefix_cases}
use perfect_build_radar_touc.Radar.Items.{find_case, loot_crate, item_case, resolve_item_info}

all_cases : (Case → Bool) → List Case → Bool
all_cases p [] = true
all_cases p (c ∷ cs) = p c && all_cases p cs

-- A case that is found has the label looked for, and passes what every case passes.
find_case_sound :
    (p : Case → Bool) (cs : List Case) (label : ℕ) (c : Case)
    → find_case cs label ≡ some c
    → all_cases p cs ≡ true
    → (p c ≡ true) × (c.label ≡ label)
unfolding find_case all_cases
find_case_sound p [] label c e h = absurd (ground arith)
find_case_sound p (d ∷ cs) label c e h = elim (Bool-cases (d.label == label)) [
  | inl hit ↦ ground arith
  | inr miss ↦ find_case_sound p cs label c (ground arith) (ground arith)
]

-- A name that is not empty and fits 32 bytes with its NUL, and a category from 1 to 5.
abbrev well_formed : Case → Bool
well_formed c =
    leb 1 (length c.name) && ltb (length c.name) 32 && (leb 1 c.category && leb c.category 5)

item_cases-well_formed : all_cases well_formed item_cases ≡ true
unfolding all_cases item_cases
item_cases-well_formed = refl

prefix_cases-well_formed : all_cases well_formed prefix_cases ≡ true
unfolding all_cases prefix_cases
prefix_cases-well_formed = refl

-- The category that the prefix of a number stands for.
pub prefix_category : ℕ → ℕ
prefix_category prefix = elim (find_case prefix_cases prefix) [ none ↦ 5 | some c ↦ c.category ]

abbrev agrees : Case → Bool
agrees c = c.category == prefix_category (c.label / 1000)

item_cases_agree : all_cases agrees item_cases ≡ true
unfolding all_cases item_cases prefix_category find_case prefix_cases
item_cases_agree = refl

-- Where the case taken for a number comes from.
data Source (id : ℕ) : Type 0 where
  listed : (c : Case) → find_case item_cases id ≡ some c → item_case (pos id) ≡ c → Source id
  by_prefix :
      (c : Case) → find_case prefix_cases (id / 1000) ≡ some c → item_case (pos id) ≡ c → Source id
  default : find_case prefix_cases (id / 1000) ≡ none → item_case (pos id) ≡ loot_crate → Source id

source : (id : ℕ) → Source id
unfolding item_case
source id = elim (Option-cases (find_case item_cases id)) [
  | inr (c, e) ↦ listed c e (ground arith)
  | inl e ↦ elim (Option-cases (find_case prefix_cases (id / 1000))) [
    | inl e' ↦ default e' (ground arith)
    | inr (c, e') ↦ by_prefix c e' (ground arith)
  ]
]

item_case-well_formed : (item_id : ℤ) → well_formed (item_case item_id) ≡ true
unfolding item_case
item_case-well_formed (negsuc n) = refl
item_case-well_formed (pos id) = elim (source id) [
  | listed c e s ↦ rw s ((find_case_sound well_formed item_cases id c e item_cases-well_formed).0)
  | by_prefix c e s ↦
      rw s ((find_case_sound well_formed prefix_cases _ c e prefix_cases-well_formed).0)
  | default e s ↦ rw s
]

well_formed_bounds :
    (c : Case)
    → well_formed c ≡ true
    → (1 ≤ length c.name) × (length c.name < 32) × (1 ≤ c.category) × (c.category ≤ 5)
well_formed_bounds c h = ground arith

-- Every item number, listed or not, gets a name that is not empty and fits a buffer of at least 32
-- bytes uncut, and a category from 1 to 5.
pub resolve_item_info_bounds :
    (item_id : ℤ) (max_len : ℕ)
    → 32 ≤ max_len
    → (1 ≤ length (resolve_item_info item_id max_len).0)
      × (length (resolve_item_info item_id max_len).0 < max_len)
      × (1 ≤ (resolve_item_info item_id max_len).1)
      × ((resolve_item_info item_id max_len).1 ≤ 5)
unfolding resolve_item_info
resolve_item_info_bounds item_id max_len h =
    let name = (item_case item_id).name in
    let w = well_formed_bounds (item_case item_id) (item_case-well_formed item_id) in
    let whole : fit max_len name ≡ name = take_of_length (max_len - 1) name (omega arith) in
    rw whole (omega arith, omega arith, omega arith, omega arith)

-- The category of a listed item is that of its prefix: only `item_id / 1000` decides it, whether
-- the item has a case of its own or not.
pub resolve_item_info-category :
    (item_id max_len : ℕ)
    → (resolve_item_info (pos item_id) max_len).1 ≡ prefix_category (item_id / 1000)
unfolding resolve_item_info prefix_category
resolve_item_info-category id max_len = elim (source id) [
  | listed c e s ↦
      let (agree, label) = find_case_sound agrees item_cases id c e item_cases_agree in
      rw (s, ← label) ((==_iff _ _).0 agree)
  | by_prefix c e s ↦ rw s (ground arith)
  | default e s ↦ rw s (ground arith)
]
