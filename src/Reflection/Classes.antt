-- ===== src/Reflection/Classes.antt =====
-- `ue4r_walk_classes` and `ue4r_iterate_classes`. The fuel counts the rounds that the properties of
-- one class may take; without enough there is no result.
pub mod Visit
pub mod Read
pub mod Bounds
pub mod Stream
pub mod Trace
pub mod Ends
pub mod Sample
mod Tests
use perfect_build_radar_touc.Base.{
  ℕ, zero, suc, ◌+◌, ◌-◌, ◌*◌, ◌/◌, min, Bool, true, false, not, ◌&&◌, ◌||◌, List, [], ◌∷◌, ◌++◌,
  Option, none, some, ltb, ◌==◌, if◌then◌else◌, take, drop, Bytes, add64, le, ℤ, pos, negsuc,
}
use perfect_build_radar_touc.Remote.{Vm, fetch, read_ptr, read_i32, validate_ptr}
use perfect_build_radar_touc.Json.{Class}
use perfect_build_radar_touc.Reflection.{Ctx}
use perfect_build_radar_touc.Reflection.Objects.{read_object_from_array, get_objects_info}
use perfect_build_radar_touc.Reflection.Classes.Visit.{visit}

abbrev pub max_objects : ℕ
max_objects = 500000

abbrev pub batch_size : ℕ
batch_size = 512

-- The objects of `k` items of 24 bytes.
unfoldable pub item_objects : Bytes → (k : ℕ) → List ℕ
item_objects items zero = []
item_objects items (suc k) = le (take 8 items) ∷ item_objects (drop 24 items) k

-- The class of an object, if there is one, in front of the rest.
abbrev pub add_class : Option Class → List Class × Ctx → List Class × Ctx
add_class none r = r
add_class (some c) r = (c ∷ r.0, r.1)

module _ (vm : Vm) where
  -- `k` objects from index `i` on, one at a time.
  unfoldable pub single_objects : (objects_ptr i k : ℕ) → List ℕ
  single_objects objects_ptr i zero = []
  single_objects objects_ptr i (suc k) =
      read_object_from_array vm objects_ptr i ∷ single_objects objects_ptr (i + 1) k

  -- The objects of a batch, from one read where that succeeds.
  unfoldable pub batch_objects : (objects_ptr b to_read : ℕ) → List ℕ
  batch_objects objects_ptr b to_read =
      elim (fetch vm (add64 objects_ptr (b * 24)) (to_read * 24)) [
        | none ↦ single_objects objects_ptr b to_read
        | some items ↦ item_objects items to_read
      ]

  -- The loop over a batch that collects the classes.
  unfoldable pub walk_objects : (fuel : ℕ) → List ℕ → Ctx → Option (List Class × Ctx)
  walk_objects fuel [] ctx = some ([], ctx)
  walk_objects fuel (obj ∷ objs) ctx = elim (visit vm fuel ctx obj) [
    | none ↦ none
    | some seen ↦ elim (walk_objects fuel objs seen.1) [
      | none ↦ none
      | some r ↦ some (add_class seen.0 r)
    ]
  ]

  -- The loop over the batches from index `b` on.
  unfoldable pub walk_batches :
      (fuel objects_ptr num_elems rounds b : ℕ) → Ctx → Option (List Class × Ctx)
  walk_batches fuel objects_ptr num_elems zero b ctx = some ([], ctx)
  walk_batches fuel objects_ptr num_elems (suc rounds) b ctx =
      let objs = batch_objects objects_ptr b (min (num_elems - b) batch_size) in
      let batched : Option (List Class × Ctx) = elim (walk_objects fuel objs ctx) [
        | none ↦ none
        | some r ↦ elim (walk_batches fuel objects_ptr num_elems rounds (b + batch_size) r.1) [
          | none ↦ none
          | some rest ↦ some (r.0 ++ rest.0, rest.1)
        ]
      ] in
      if ltb b num_elems then batched else some ([], ctx)

  -- No list stands for the null pointer too.
  unfoldable pub walk_classes : (fuel : ℕ) → Ctx → Option (List Class × Ctx)
  walk_classes fuel ctx = elim (get_objects_info vm ctx.guobjectarray) [
    | none ↦ some ([], ctx)
    | some objects ↦
        let num_elems = min objects.count max_objects in
        walk_batches fuel objects.ptr num_elems (num_elems / batch_size + 1) 0 ctx
  ]

  module _ {ℓ} {S : Type ℓ} (cb : S → Class → S) where
    -- The loop over a batch that hands the classes to the callback and counts them.
    unfoldable pub iterate_objects :
        (fuel : ℕ) → List ℕ → S → (class_count : ℕ) → Ctx → Option (S × ℕ × Ctx)
    iterate_objects fuel [] s class_count ctx = some (s, class_count, ctx)
    iterate_objects fuel (obj ∷ objs) s class_count ctx = elim (visit vm fuel ctx obj) [
      | none ↦ none
      | some seen ↦ elim seen.0 [
        | none ↦ iterate_objects fuel objs s class_count seen.1
        | some c ↦ iterate_objects fuel objs (cb s c) (class_count + 1) seen.1
      ]
    ]

    unfoldable pub iterate_batches :
        (fuel objects_ptr num_elems rounds b : ℕ)
        → S
        → (class_count : ℕ) → Ctx
        → Option (S × ℕ × Ctx)
    iterate_batches fuel objects_ptr num_elems zero b s class_count ctx = some (s, class_count, ctx)
    iterate_batches fuel objects_ptr num_elems (suc rounds) b s class_count ctx =
        let objs = batch_objects objects_ptr b (min (num_elems - b) batch_size) in
        let batched : Option (S × ℕ × Ctx) = elim (iterate_objects fuel objs s class_count ctx) [
          | none ↦ none
          | some r ↦ iterate_batches fuel objects_ptr num_elems rounds (b + batch_size) r.0 r.1 r.2
        ] in
        if ltb b num_elems then batched else some (s, class_count, ctx)

    -- The state of the callback, and the result.
    unfoldable pub iterate_classes : (fuel : ℕ) → S → Ctx → Option (S × ℤ × Ctx)
    iterate_classes fuel s ctx = elim (get_objects_info vm ctx.guobjectarray) [
      | none ↦ some (s, negsuc 0, ctx)
      | some objects ↦
          let num_elems = min objects.count max_objects in
          elim (iterate_batches fuel objects.ptr num_elems (num_elems / batch_size + 1) 0 s 0 ctx) [
            | none ↦ none
            | some r ↦ some (r.0, pos r.1, r.2)
          ]
    ]
