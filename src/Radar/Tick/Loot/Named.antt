-- ===== src/Radar/Tick/Loot/Named.antt =====
-- The names that items get.
use perfect_build_radar_touc.Base.{
  ℕ, ◌≤◌, ◌<◌, ◌≡◌, refl, subst, ◌⊎◌, inl, inr, Bool, true, false, not, ◌&&◌, List, [], ◌∷◌, none,
  some, arith, ltb, leb, ◌==◌, if◌then◌else◌, if-split, take_of_length, length, Bytes, codes, ℤ,
  fit, Bool-cases, Option-cases, add64,
}
use perfect_build_radar_touc.Remote.{Vm}
use perfect_build_radar_touc.Radar.World.{ptr}
use perfect_build_radar_touc.Radar.Items.Table.{Rule, actor_rules}
use perfect_build_radar_touc.Radar.Items.{
  contains_any, first_rule, resolve_item_from_actor_name, resolve_item_info,
}
use perfect_build_radar_touc.Radar.Items.Laws.{resolve_item_info_bounds}
use perfect_build_radar_touc.Radar.Classes.{Resolver, off_uobject_name}
use perfect_build_radar_touc.Radar.Tick.Loot.{
  not_positive, generic, resolve_by_name, retry, name_item,
}

-- A name that is not empty and fits its array of 32 bytes, and a category from 1 to 5.
unfoldable pub IsLabel : Bytes × ℕ → Type 0
IsLabel r = (1 ≤ length r.0) × (length r.0 < 32) × (1 ≤ r.1) × (r.1 ≤ 5)

-- No name yet, or a label.
unfoldable pub IsNamed : Bytes × ℕ → Type 0
IsNamed r = (length r.0 ≡ 0) ⊎ IsLabel r

abbrev sound_rule : Rule → Bool
sound_rule r =
    leb 1 (length r.name) && ltb (length r.name) 32 && (leb 1 r.category && leb r.category 5)

all_rules : (Rule → Bool) → List Rule → Bool
all_rules p [] = true
all_rules p (r ∷ rules) = p r && all_rules p rules

actor_rules_sound : all_rules sound_rule actor_rules ≡ true
unfolding all_rules actor_rules
actor_rules_sound = refl

first_rule_sound :
    (rules : List Rule) (text : Bytes) (r : Rule)
    → all_rules sound_rule rules ≡ true
    → first_rule rules text ≡ some r
    → sound_rule r ≡ true
unfolding all_rules first_rule
first_rule_sound [] text r h e = absurd (ground (arith, e))
first_rule_sound (q ∷ rules) text r h e = elim (Bool-cases (contains_any text q.needles)) [
  | inl hit ↦
      let same : q ≡ r = ground (arith, hit, e) in
      subst (λ (x : Rule). sound_rule x ≡ true) same (ground (arith, h))
  | inr miss ↦ first_rule_sound rules text r (ground (arith, h)) (ground (arith, miss, e))
]

rule-IsLabel : (r : Rule) → sound_rule r ≡ true → IsLabel (fit 32 r.name, r.category)
unfolding IsLabel
rule-IsLabel r h =
    let short : length r.name < 32 = ground (arith, h) in
    let whole : fit 32 r.name ≡ r.name = take_of_length 31 r.name (omega (arith, short)) in
    rw whole (ground (arith, h), ground (arith, h), ground (arith, h), ground (arith, h))

label-IsNamed : (r : Bytes × ℕ) → IsLabel r → IsNamed r
unfolding IsNamed
label-IsNamed r h = inr h

resolve_item_from_actor_name-IsNamed :
    (aname : Bytes) (old : Bytes × ℕ)
    → IsNamed old
    → IsNamed (resolve_item_from_actor_name aname 32 old)
unfolding resolve_item_from_actor_name
resolve_item_from_actor_name-IsNamed [] old h = h
resolve_item_from_actor_name-IsNamed (c ∷ aname) old h =
    elim (Option-cases (first_rule actor_rules (c ∷ aname))) [
      | inl e ↦ rw (e, resolve_item_from_actor_name) h
      | inr r ↦
          rw (r.1, resolve_item_from_actor_name)
            (label-IsNamed (fit 32 r.0.name, r.0.category)
              (rule-IsLabel r.0
                (first_rule_sound actor_rules (c ∷ aname) r.0 actor_rules_sound r.1)))
    ]

resolve_by_name-IsNamed :
    (r : Resolver) (object : ℕ) (old : Bytes × ℕ)
    → IsNamed old
    → IsNamed (resolve_by_name r object old)
unfolding resolve_by_name
resolve_by_name-IsNamed none object old h = h
resolve_by_name-IsNamed (some resolve) object old h =
    let found = resolve (add64 object off_uobject_name) in
    if-split IsNamed found.0 (resolve_item_from_actor_name found.1 32 old) old
      (λ _. resolve_item_from_actor_name-IsNamed found.1 old h) (λ _. h)

retry-IsNamed :
    (r : Resolver) (object : ℕ) (old : Bytes × ℕ) → IsNamed old → IsNamed (retry r object old)
unfolding retry
retry-IsNamed r object old h =
    if-split IsNamed (generic old.0 && not (object == 0)) (resolve_by_name r object old) old
      (λ _. resolve_by_name-IsNamed r object old h) (λ _. h)

empty-IsNamed : IsNamed ([], 0)
unfolding IsNamed
empty-IsNamed = inl refl

info-IsNamed : (item_id : ℤ) → IsNamed (resolve_item_info item_id 32)
unfolding IsNamed IsLabel
info-IsNamed item_id = inr (resolve_item_info_bounds item_id 32 (omega arith))

listed-IsNamed :
    (item_id : ℤ) → IsNamed (if not_positive item_id then ([], 0) else resolve_item_info item_id 32)
listed-IsNamed item_id =
    if-split IsNamed (not_positive item_id) ([], 0) (resolve_item_info item_id 32)
      (λ _. empty-IsNamed) (λ _. info-IsNamed item_id)

supply-IsLabel :
    (r : Bytes × ℕ) → IsNamed r → IsLabel (if length r.0 == 0 then (codes "Supply", 5) else r)
unfolding IsNamed IsLabel
supply-IsLabel r (inl h) =
    let empty : (length r.0 == 0) ≡ true = ground (arith, h) in
    rw empty (omega arith, omega arith, omega arith, omega arith)
supply-IsLabel r (inr h) = let full : (length r.0 == 0) ≡ false = ground (arith, h.0) in rw full h

pub name_item-IsLabel :
    (r : Resolver) (vm : Vm) (iactor : ℕ) (item_id : ℤ) → IsLabel (name_item r vm iactor item_id)
unfolding name_item
name_item-IsLabel r vm iactor item_id =
    let listed : Bytes × ℕ =
      if not_positive item_id then ([], 0) else resolve_item_info item_id 32 in
    let good = listed-IsNamed item_id in
    let by_actor = resolve_by_name r iactor listed in
    let by_class = retry r (ptr vm iactor 0x10) by_actor in
    let by_mesh = retry r (ptr vm iactor 1816) by_class in
    let named = if generic listed.0 then by_mesh else listed in
    supply-IsLabel named (
      if-split IsNamed (generic listed.0) by_mesh listed
        (λ _. retry-IsNamed r (ptr vm iactor 1816) by_class (
          retry-IsNamed r (ptr vm iactor 0x10) by_actor
            (resolve_by_name-IsNamed r iactor listed good)))
        (λ _. good))
