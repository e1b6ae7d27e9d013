-- ===== src/Radar/Tick/Loot/Shown.antt =====
-- The items that are shown.
use perfect_build_radar_touc.Base.{
  ℕ, suc, ◌-◌, ◌≤◌, ◌<◌, ◌≡◌, refl, ap, inl, inr, true, List, [], ◌∷◌, arith, ◌==◌, if-split,
  length, take_of_length, All, Bytes, fit, ℤ, pos, ltb_int, add64, Bool-cases, Option-cases,
}
use perfect_build_radar_touc.Remote.{Vm}
use perfect_build_radar_touc.Radar.Meta.{
  Entry, ItemMeta, find_meta, store_item_meta, item_meta_cache_size,
}
use perfect_build_radar_touc.Radar.Meta.Keeps.{Keeps, store_meta-Keeps, find_meta-Keeps}
use perfect_build_radar_touc.Radar.Classes.{Resolver}
use perfect_build_radar_touc.Radar.Tick.{Float, Vec, raw, position, distance}
use perfect_build_radar_touc.Radar.Tick.Loot.{
  Item, max_items, not_positive, int_of, item_id_of, count_of, name_item, item_meta_of, item_of,
  tick_items,
}
use perfect_build_radar_touc.Radar.Tick.Loot.Named.{IsLabel, name_item-IsLabel}

-- What is cached of an item.
unfoldable pub IsLabelled : ItemMeta → Type 0
IsLabelled m = IsLabel (m.name, m.category)

-- An item that is shown.
unfoldable pub IsShown : {F : Type 0} → Item F → Type 0
IsShown i = IsLabel (i.name, i.category) × (ltb_int (pos 0) i.count ≡ true)

-- What is left of the loop over `n` items.
unfoldable pub IsTicked :
    {F : Type 0} → (room n : ℕ) → List ℕ × List (Item F) × List (Entry ItemMeta) → Type 0
IsTicked room n r =
    (length r.0 ≡ n) × (length r.1 ≤ room) × All IsShown r.1 × All (Keeps IsLabelled) r.2

unfoldable pub IsItemMeta : ItemMeta × List (Entry ItemMeta) → Type 0
IsItemMeta r = IsLabelled r.0 × All (Keeps IsLabelled) r.1

count_of-positive : (vm : Vm) (iactor : ℕ) → ltb_int (pos 0) (count_of vm iactor) ≡ true
unfolding count_of
count_of-positive vm iactor =
    let count = int_of (raw vm (add64 iactor 0x610) 4) in
    if-split (λ (c : ℤ). ltb_int (pos 0) c ≡ true) (not_positive count) (pos 1) count (λ _. refl)
      (λ e. ground (arith, e))

cut-IsLabelled :
    (item_id : ℤ) (r : Bytes × ℕ)
    → IsLabel r
    → IsLabelled (record { item_id = item_id; category = r.1; name = fit 32 r.0 })
unfolding IsLabelled IsLabel
cut-IsLabelled item_id r h =
    let whole : fit 32 r.0 ≡ r.0 = take_of_length 31 r.0 (omega (arith, h.1)) in rw whole h

whole-IsLabelled :
    (item_id : ℤ) (r : Bytes × ℕ)
    → IsLabel r
    → IsLabelled (record { item_id = item_id; category = r.1; name = r.0 })
unfolding IsLabelled
whole-IsLabelled item_id r h = h

item_meta_of-IsItemMeta :
    (r : Resolver) (vm : Vm) (iactor : ℕ) (cache : List (Entry ItemMeta))
    → All (Keeps IsLabelled) cache
    → IsItemMeta (item_meta_of r vm iactor cache)
unfolding item_meta_of store_item_meta IsItemMeta
item_meta_of-IsItemMeta r vm iactor cache h = elim (Option-cases (find_meta cache iactor)) [
  | inr m ↦ rw (m.1, item_meta_of) (find_meta-Keeps IsLabelled cache iactor m.0 h m.1, h)
  | inl e ↦
      let item_id = item_id_of vm iactor in
      let named = name_item r vm iactor item_id in
      let good = name_item-IsLabel r vm iactor item_id in
      rw (e, item_meta_of)
        (
          whole-IsLabelled item_id named good,
          store_meta-Keeps IsLabelled item_meta_cache_size cache iactor
              (record { item_id = item_id; category = named.1; name = fit 32 named.0 }) h
              (cut-IsLabelled item_id named good),
        )
]

module _ (fl : Float) (r : Resolver) (vm : Vm) where
  item_of-IsShown :
      (place camera_pos : Vec fl.F) (iactor : ℕ) (m : ItemMeta)
      → IsLabelled m
      → IsShown (item_of fl r vm place camera_pos iactor m)
  unfolding item_of IsShown IsLabelled
  item_of-IsShown place camera_pos iactor m h = (h, count_of-positive vm iactor)

  full-IsTicked :
      (iactors : List ℕ) (room : ℕ) (cache : List (Entry ItemMeta))
      → All (Keeps IsLabelled) cache
      → IsTicked {F = fl.F} room (length iactors) (iactors, [], cache)
  unfolding IsTicked
  full-IsTicked iactors room cache h = (refl, omega arith, tt, h)

  passed-IsTicked :
      (a room n : ℕ) (t : List ℕ × List (Item fl.F) × List (Entry ItemMeta))
      → IsTicked {F = fl.F} room n t
      → IsTicked {F = fl.F} room (suc n) (a ∷ t.0, t.1, t.2)
  unfolding IsTicked
  passed-IsTicked a room n t h = (ap suc h.0, h.1, h.2, h.3)

  taken-IsTicked :
      (a room n : ℕ) (i : Item fl.F) (t : List ℕ × List (Item fl.F) × List (Entry ItemMeta))
      → 0 < room
      → IsShown i
      → IsTicked {F = fl.F} (room - 1) n t
      → IsTicked {F = fl.F} room (suc n) (a ∷ t.0, i ∷ t.1, t.2)
  unfolding IsTicked
  taken-IsTicked a room n i t hr hi h = (ap suc h.0, omega (arith, hr, h.1), (hi, h.2), h.3)

  meta-IsLabelled : (m : ItemMeta × List (Entry ItemMeta)) → IsItemMeta m → IsLabelled m.0
  unfolding IsItemMeta
  meta-IsLabelled m h = h.0

  meta-Keeps : (m : ItemMeta × List (Entry ItemMeta)) → IsItemMeta m → All (Keeps IsLabelled) m.1
  unfolding IsItemMeta
  meta-Keeps m h = h.1

  ticked :
      (camera_pos : Vec fl.F) (room : ℕ) (items : List ℕ) (cache : List (Entry ItemMeta))
      → All (Keeps IsLabelled) cache
      → IsTicked {F = fl.F} room (length items) (tick_items fl r vm camera_pos room items cache)
  unfolding tick_items
  ticked camera_pos room [] cache h = full-IsTicked [] room cache h
  ticked camera_pos room (a ∷ items) cache h =
      let n = length items in
      let passed = tick_items fl r vm camera_pos room items cache in
      let m = item_meta_of r vm a cache in
      let good = item_meta_of-IsItemMeta r vm a cache h in
      let rest = tick_items fl r vm camera_pos (room - 1) items m.1 in
      let passed_good = ticked camera_pos room items cache h in
      elim (Bool-cases (room == 0)) [
        | inl e ↦ rw e (full-IsTicked (a ∷ items) room cache h)
        | inr e ↦ elim (Bool-cases (a == 0)) [
          | inl null ↦ rw (e, null) (passed-IsTicked a room n passed passed_good)
          | inr there ↦ elim (Option-cases (position fl vm a)) [
            | inl gone ↦ rw (e, there, gone) (passed-IsTicked 0 room n passed passed_good)
            | inr place ↦
                let item = item_of fl r vm place.0 camera_pos a m.0 in
                rw (e, there, place.1)
                  (if-split (IsTicked {F = fl.F} room (suc n))
                    (fl.lt (fl.lit 120000) (distance fl place.0 camera_pos))
                    (a ∷ passed.0, passed.1, passed.2) (a ∷ rest.0, item ∷ rest.1, rest.2)
                    (λ _. passed-IsTicked a room n passed passed_good)
                    (λ _.
                      taken-IsTicked a room n item rest (ground (arith, e))
                        (item_of-IsShown place.0 camera_pos a m.0 (meta-IsLabelled m good))
                        (ticked camera_pos (room - 1) items m.1 (meta-Keeps m good))))
          ]
        ]
      ]

-- For any target, name lookup, floating-point unit and camera: when every entry of the item cache
-- has a name of 1 to 31 bytes and a category from 1 to 5, the loop of `radar_tick` over the items
-- keeps it so, and every item that is shown has such a name and category and a positive count; the
-- array of the items keeps its length, and at most 60 items are shown.
pub tick_items-IsShown :
    (fl : Float) (r : Resolver) (vm : Vm) (camera_pos : Vec fl.F) (items : List ℕ)
    (cache : List (Entry ItemMeta))
    → All (Keeps IsLabelled) cache
    → (length (tick_items fl r vm camera_pos max_items items cache).0 ≡ length items)
      × (length (tick_items fl r vm camera_pos max_items items cache).1 ≤ max_items)
      × All IsShown (tick_items fl r vm camera_pos max_items items cache).1
      × All (Keeps IsLabelled) (tick_items fl r vm camera_pos max_items items cache).2
unfolding IsTicked
tick_items-IsShown fl r vm camera_pos items cache h =
    ticked fl r vm camera_pos max_items items cache h
