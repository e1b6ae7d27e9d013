-- ===== src/Radar/Tick/Loot.antt =====
-- The loop of `radar_tick` over the items.
pub mod Named
pub mod Shown
mod Tests
use perfect_build_radar_touc.Base.{
  ℕ, zero, suc, ◌+◌, ◌-◌, Bool, true, false, not, ◌&&◌, ◌||◌, List, [], ◌∷◌, Option, none, some,
  ◌==◌, if◌then◌else◌, replicate, length, Bytes, add64, le, codes, ℤ, pos, signed32, ltb_int,
  is_prefix, same_text,
}
use perfect_build_radar_touc.Remote.{Vm, read}
use perfect_build_radar_touc.Radar.World.{ptr}
use perfect_build_radar_touc.Radar.Items.{resolve_item_info, resolve_item_from_actor_name}
use perfect_build_radar_touc.Radar.Meta.{Entry, ItemMeta, find_meta, store_item_meta}
use perfect_build_radar_touc.Radar.Classes.{Resolver, off_uobject_name}
use perfect_build_radar_touc.Radar.Tick.{Float, Vec, raw, position, distance}

-- `radar_item_t`.
pub record Item (F : Type 0) : Type 0 where
  pub pos : Vec F
  pub distance : F
  pub item_id : ℤ
  pub count : ℤ
  pub category : ℕ
  pub name : Bytes

abbrev pub max_items : ℕ
max_items = 60

-- `x <= 0`.
abbrev pub not_positive : ℤ → Bool
not_positive x = not (ltb_int (pos 0) x)

-- An `int32_t` from its four bytes.
abbrev pub int_of : Bytes → ℤ
int_of bytes = signed32 (le bytes)

-- The three places of the item number; each read goes into what the one before has left.
unfoldable pub item_id_of : Vm → (iactor : ℕ) → ℤ
item_id_of vm iactor =
    let first = raw vm (add64 iactor 0x758) 4 in
    let second = (read vm (add64 iactor 1528) first 4).1 in
    let list_data = ptr vm iactor 2408 in
    let third = (read vm list_data second 4).1 in
    if not (not_positive (int_of first))
    then int_of first
    else if not (not_positive (int_of second))
    then int_of second
    else if list_data == 0
    then int_of second
    else int_of third

unfoldable pub count_of : Vm → (iactor : ℕ) → ℤ
count_of vm iactor =
    let count = int_of (raw vm (add64 iactor 0x610) 4) in
    if not_positive count then pos 1 else count

-- A name that says nothing of the item.
unfoldable pub generic : Bytes → Bool
generic name =
    length name == 0 || is_prefix (codes "Item") name || same_text name (codes "Loot Crate")

-- The name and category by the name of an object, where there is one.
unfoldable pub resolve_by_name : Resolver → (object : ℕ) → Bytes × ℕ → Bytes × ℕ
resolve_by_name none object old = old
resolve_by_name (some resolve) object old =
    let r = resolve (add64 object off_uobject_name) in
    if r.0 then resolve_item_from_actor_name r.1 32 old else old

-- The same for an object that may be missing, while the name is still generic.
unfoldable pub retry : Resolver → (object : ℕ) → Bytes × ℕ → Bytes × ℕ
retry r object old =
    if generic old.0 && not (object == 0) then resolve_by_name r object old else old

-- The name and category by the number, or else by the actor, its class or its mesh.
unfoldable pub name_item : Resolver → Vm → (iactor : ℕ) → (item_id : ℤ) → Bytes × ℕ
name_item r vm iactor item_id =
    let listed : Bytes × ℕ =
      if not_positive item_id then ([], 0) else resolve_item_info item_id 32 in
    let by_actor = resolve_by_name r iactor listed in
    let by_class = retry r (ptr vm iactor 0x10) by_actor in
    let by_mesh = retry r (ptr vm iactor 1816) by_class in
    let named = if generic listed.0 then by_mesh else listed in
    if length named.0 == 0 then (codes "Supply", 5) else named

-- What is cached of the item, or else found out and stored.
unfoldable pub item_meta_of :
    Resolver → Vm → (iactor : ℕ) → List (Entry ItemMeta) → ItemMeta × List (Entry ItemMeta)
item_meta_of r vm iactor cache = elim (find_meta cache iactor) [
  | some m ↦ (m, cache)
  | none ↦
      let item_id = item_id_of vm iactor in
      let named = name_item r vm iactor item_id in
      (
        record { item_id = item_id; category = named.1; name = named.0 },
        store_item_meta cache iactor item_id named.1 named.0,
      )
]

module _ (fl : Float) (r : Resolver) (vm : Vm) where
  unfoldable pub item_of : (place camera_pos : Vec fl.F) → (iactor : ℕ) → ItemMeta → Item fl.F
  item_of place camera_pos iactor m = record {
    pos = place;
    distance = distance fl place camera_pos;
    item_id = m.item_id;
    count = count_of vm iactor;
    category = m.category;
    name = m.name;
  }

  -- The loop with `room` items to go: the array that is left, the items and the cache.
  unfoldable pub tick_items :
      (camera_pos : Vec fl.F)
      → (room : ℕ) → (items : List ℕ) → List (Entry ItemMeta)
      → List ℕ × List (Item fl.F) × List (Entry ItemMeta)
  tick_items camera_pos room [] cache = ([], [], cache)
  tick_items camera_pos room (iactor ∷ iactors) cache =
      let passed = tick_items camera_pos room iactors cache in
      let m = item_meta_of r vm iactor cache in
      let rest = tick_items camera_pos (room - 1) iactors m.1 in
      let seen : List ℕ × List (Item fl.F) × List (Entry ItemMeta) = elim (position fl vm iactor) [
        | none ↦ (0 ∷ passed.0, passed.1, passed.2)
        | some place ↦
            if fl.lt (fl.lit 120000) (distance fl place camera_pos)
            then (iactor ∷ passed.0, passed.1, passed.2)
            else (iactor ∷ rest.0, item_of place camera_pos iactor m.0 ∷ rest.1, rest.2)
      ] in
      if room == 0
      then (iactor ∷ iactors, [], cache)
      else if iactor == 0
      then (iactor ∷ passed.0, passed.1, passed.2)
      else seen
