-- ===== src/Reflection/Objects.antt =====
-- The object array: `read_object_from_array`, `get_objects_info` and `find_uclass_class`.
pub mod Meta
use perfect_build_radar_touc.Base.{
  ℕ, zero, suc, ◌+◌, ◌-◌, ◌*◌, ◌/◌, ◌%◌, Bool, true, false, not, ◌&&◌, ◌||◌, Option, none, some,
  ltb, ◌==◌, if◌then◌else◌, Bytes, add64, ℤ, pos, ltb_int, nat_of, codes, same_text,
}
use perfect_build_radar_touc.Remote.{Vm, read_ptr, read_i32, validate_ptr}
use perfect_build_radar_touc.Reflection.{Ctx}
use perfect_build_radar_touc.Reflection.Names.{resolve_object_name}
use perfect_build_radar_touc.Reflection.Path.{name_or}

-- The objects pointer and the number of objects; the number is positive.
pub record Objects : Type 0 where
  pub ptr : ℕ
  pub count : ℕ

abbrev pub max_init_scan_objs : ℕ
max_init_scan_objs = 8192

-- `strcmp(name, "Class") == 0` for a name that was resolved.
abbrev pub is_class_name : Option Bytes → Bool
is_class_name none = false
is_class_name (some name) = same_text name (codes "Class")

-- A pointer and a count that can be used.
unfoldable pub usable : ℕ → ℤ × Bool → Bool
usable ptr count = validate_ptr ptr && count.1 && ltb_int (pos 0) count.0

module _ (vm : Vm) where
  unfoldable pub read_object_from_array : (objects_ptr index : ℕ) → ℕ
  read_object_from_array objects_ptr index =
      let flat_obj = read_ptr vm (add64 objects_ptr (index * 0x18)) in
      let chunk_ptr = read_ptr vm (add64 objects_ptr (index / 65536 * 8)) in
      if validate_ptr flat_obj
      then flat_obj
      else if validate_ptr chunk_ptr
      then read_ptr vm (add64 chunk_ptr (index % 65536 * 0x18))
      else 0

  -- The places that are tried one after another; `at` is `guobjectarray`.
  unfoldable pub get_objects_info : (at : ℕ) → Option Objects
  get_objects_info at =
      let chunked = add64 at 0x10 in
      let first = read_ptr vm chunked in
      let first_count = read_i32 vm (add64 chunked 0x14) in
      let again = read_i32 vm (add64 chunked 0x14) in
      let third = read_ptr vm (add64 at 0x10) in
      let third_count = read_i32 vm (add64 at 0x1c) in
      let last = read_ptr vm at in
      let last_count = read_i32 vm (add64 at 0x14) in
      if usable first first_count
      then some (record { ptr = first; count = nat_of first_count.0 })
      else if usable first again
      then some (record { ptr = first; count = nat_of again.0 })
      else if usable third third_count
      then some (record { ptr = third; count = nat_of third_count.0 })
      else if usable last last_count
      then some (record { ptr = last; count = nat_of last_count.0 })
      else if validate_ptr last
      then some (record { ptr = last; count = 100000 })
      else none

  -- The test of one object: the meta-class that it shows, or 0.
  unfoldable pub meta_class_of : Ctx → (obj : ℕ) → ℕ × Ctx
  meta_class_of ctx obj =
      let cls = read_ptr vm (add64 obj 0x10) in
      let named = resolve_object_name vm ctx obj 256 in
      let cls_named = resolve_object_name vm named.1 cls 256 in
      if not (is_class_name named.0)
      then (0, named.1)
      else if cls == obj
      then (obj, named.1)
      else if is_class_name cls_named.0
      then (cls, cls_named.1)
      else (0, cls_named.1)

  -- The loop from index `i` on; the fuel counts the objects that are left.
  unfoldable pub scan_objects : (objects_ptr : ℕ) → (fuel i : ℕ) → Ctx → ℕ × Ctx
  scan_objects objects_ptr zero i ctx = (0, ctx)
  scan_objects objects_ptr (suc fuel) i ctx =
      let obj = read_object_from_array objects_ptr i in
      let found = meta_class_of ctx obj in
      let passed = scan_objects objects_ptr fuel (i + 1) ctx in
      let rest = scan_objects objects_ptr fuel (i + 1) found.1 in
      if not (validate_ptr obj) then passed else if found.0 == 0 then rest else found

  unfoldable pub find_uclass_class : Ctx → ℕ × Ctx
  find_uclass_class ctx = elim (get_objects_info ctx.guobjectarray) [
    | none ↦ (0, ctx)
    | some objects ↦
        let scan_limit =
          if ltb objects.count max_init_scan_objs then objects.count else max_init_scan_objs in
        scan_objects objects.ptr scan_limit 0 ctx
  ]
