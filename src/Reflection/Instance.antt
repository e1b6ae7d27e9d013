-- ===== src/Reflection/Instance.antt =====
-- `ue4r_ready` and `ue4r_find_instance`. The pointers that it is given are not null.
pub mod Lookup
pub mod Sound
pub mod Object
pub mod Found
pub mod Progress
pub mod Repeat
mod Tests
use perfect_build_radar_touc.Base.{
  ℕ, zero, suc, ◌+◌, ◌-◌, ◌*◌, ◌/◌, ◌%◌, min, Bool, true, false, not, ◌&&◌, ◌||◌, Option, none,
  some, ltb, leb, ◌==◌, if◌then◌else◌, take, drop, Bytes, add64, le, ℤ, pos, negsuc, fit, same_text,
}
use perfect_build_radar_touc.Remote.{Vm, fetch, read_ptr, validate_ptr}
use perfect_build_radar_touc.Reflection.{Ctx}
use perfect_build_radar_touc.Reflection.Names.{update, resolve_object_name}
use perfect_build_radar_touc.Reflection.Objects.{read_object_from_array, get_objects_info}
use perfect_build_radar_touc.Reflection.Classes.{max_objects}

unfoldable pub ready : Ctx → Bool
ready ctx = not (ctx.uclass_class == 0)

-- The objects of a call: the array, and the items that were read at once from `start` on.
pub record Batch : Type 0 where
  pub objects : ℕ
  pub count : ℕ
  pub start : ℕ
  pub items : Option Bytes

abbrev pub budget : ℕ
budget = 512

-- What one object comes to: a hit, or whether the search starts again, with the context.
pub data Seen : Type 0 where
  hit : ℕ → Ctx → Seen
  restarted : Ctx → Seen
  passed : Ctx → Seen

-- The first two fields of the objects' header that count: the flags and the class.
abbrev pub header_flags : Bytes → ℕ
header_flags header = le (take 4 (drop 8 header))

abbrev pub header_class : Bytes → ℕ
header_class header = le (take 8 (drop 16 header))

abbrev pub lookup_slot : ℕ → ℕ
lookup_slot cls = cls / 16 % 256

-- A name that is not the last one: what was found for that is forgotten.
unfoldable pub new_lookup : Ctx → Bytes → Ctx
new_lookup ctx name = record ctx {
  lookup_name = fit 64 name;
  lookup_class = 0;
  lookup_keys = λ slot. 0;
}

unfoldable pub remember_match : Ctx → (cls : ℕ) → Bool → Ctx
remember_match ctx cls match = record ctx {
  lookup_keys = update ctx.lookup_keys (lookup_slot cls) cls;
  lookup_matches = update ctx.lookup_matches (lookup_slot cls) match;
}

module _ (vm : Vm) where
  -- The loop up the chain of super-structs; the fuel counts the depths that are left.
  unfoldable pub derives : (lookup_class depth cls : ℕ) → Bool
  derives lookup_class zero cls = false
  derives lookup_class (suc depth) cls =
      let above = derives lookup_class depth (read_ptr vm (add64 cls 0x30)) in
      if not (validate_ptr cls) then false else if cls == lookup_class then true else above

  unfoldable pub object_at : Batch → (index : ℕ) → ℕ
  object_at batch index =
      let in_batch =
        leb batch.start index && ltb index (batch.start + min (batch.count - batch.start) 512) in
      let item : ℕ = elim batch.items [
        | none ↦ 0
        | some items ↦ le (take 8 (drop ((index - batch.start) * 24) items))
      ] in
      let obj = if in_batch then item else 0 in
      if validate_ptr obj then obj else read_object_from_array vm batch.objects index

  -- An object while the class is still looked for.
  unfoldable pub see_class : Bytes → Ctx → (obj cls : ℕ) → Seen
  see_class name ctx obj cls =
      let named = resolve_object_name vm ctx obj 256 in
      let compared : Seen = elim named.0 [
        | none ↦ passed named.1
        | some candidate ↦
            if same_text candidate name
            then restarted (record named.1 { lookup_class = obj })
            else passed named.1
      ] in
      if cls == ctx.uclass_class then compared else passed ctx

  -- The context once the match of a class is known.
  unfoldable pub with_match : Ctx → (cls : ℕ) → Ctx
  with_match ctx cls =
      if ctx.lookup_keys (lookup_slot cls) == cls
      then ctx
      else remember_match ctx cls (derives ctx.lookup_class 32 cls)

  -- An object once the class is known.
  unfoldable pub see_instance : Ctx → (obj flags cls : ℕ) → Seen
  see_instance ctx obj flags cls =
      let known = with_match ctx cls in
      if flags / 16 % 2 == 1
      then passed ctx
      else if known.lookup_matches (lookup_slot cls)
      then hit obj known
      else passed known

  unfoldable pub see_object : Bytes → Ctx → (obj : ℕ) → Seen
  see_object name ctx obj =
      let read : Seen = elim (fetch vm obj 24) [
        | none ↦ passed ctx
        | some header ↦
            if ctx.lookup_class == 0
            then see_class name ctx obj (header_class header)
            else see_instance ctx obj (header_flags header) (header_class header)
      ] in
      if validate_ptr obj then read else passed ctx

  -- The loop, with the object that is found, or 0; the fuel is the budget that is left.
  unfoldable pub search : Bytes → Batch → (fuel cursor : ℕ) → Ctx → ℕ × ℕ × Ctx
  search name batch zero cursor ctx = (0, cursor, ctx)
  search name batch (suc fuel) cursor ctx =
      let looked : ℕ × ℕ × Ctx = elim (see_object name ctx (object_at batch cursor)) [
        | hit obj ctx' ↦ (obj, cursor + 1, ctx')
        | restarted ctx' ↦ search name batch fuel 0 ctx'
        | passed ctx' ↦ search name batch fuel (cursor + 1) ctx'
      ] in
      if ltb cursor batch.count then looked else (0, cursor, ctx)

  -- From the batch on.
  unfoldable pub search_batch : Bytes → (objects count cursor : ℕ) → Ctx → ℕ × ℤ × Ctx
  search_batch name objects count cursor ctx =
      let batch : Batch = record {
        objects = objects;
        count = count;
        start = cursor;
        items =
            if ltb cursor count
            then fetch vm (add64 objects (cursor * 24)) (min (count - cursor) 512 * 24)
            else none;
      } in
      let r = search name batch budget cursor ctx in
      if not (r.0 == 0)
      then (r.0, pos r.1, r.2)
      else if leb count r.1
      then (0, negsuc 0, r.2)
      else (0, pos r.1, r.2)

  -- From the objects on; the cursor is not negative.
  unfoldable pub find_from : Bytes → (cursor : ℕ) → Ctx → ℕ × ℤ × Ctx
  find_from name cursor ctx = elim (get_objects_info vm ctx.guobjectarray) [
    | none ↦ (0, negsuc 0, ctx)
    | some found ↦
        if ltb max_objects found.count
        then (0, negsuc 0, ctx)
        else if same_text ctx.lookup_name name
        then search_batch name found.ptr found.count cursor ctx
        else search_batch name found.ptr found.count 0 (new_lookup ctx name)
  ]

  -- The object, or 0, with the cursor and the context that are left.
  unfoldable pub find_instance : Ctx → Bytes → (cursor : ℤ) → ℕ × ℤ × Ctx
  find_instance ctx name (pos cursor) =
      if ready ctx then find_from name cursor ctx else (0, pos cursor, ctx)
  find_instance ctx name (negsuc cursor) = (0, negsuc cursor, ctx)
