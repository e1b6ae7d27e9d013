-- ===== src/Reflection/Classes/Visit.antt =====
-- One object of the walks: whether it is a class, and what is read of it.
use perfect_build_radar_touc.Base.{
  ℕ, Bool, true, false, not, ◌&&◌, ◌||◌, [], Option, none, some, ◌==◌, if◌then◌else◌, Bytes, add64,
  ℤ,
}
use perfect_build_radar_touc.Remote.{Vm, read_ptr, read_i32, validate_ptr}
use perfect_build_radar_touc.Json.{Class}
use perfect_build_radar_touc.Reflection.{Ctx}
use perfect_build_radar_touc.Reflection.Names.{resolve_object_name}
use perfect_build_radar_touc.Reflection.Path.{build_path_name}
use perfect_build_radar_touc.Reflection.Members.{is_zero, or_zero, read_properties, read_functions}
use perfect_build_radar_touc.Reflection.Objects.{is_class_name}

module _ (vm : Vm) where
  -- The test of an object by its class; the first class named "Class" is kept when there is none.
  unfoldable pub is_uclass : Ctx → (cls : ℕ) → Bool × Ctx
  is_uclass ctx cls =
      let named = resolve_object_name vm ctx cls 256 in
      let kept : Ctx =
        if named.1.uclass_class == 0 then record named.1 { uclass_class = cls } else named.1 in
      if not (ctx.uclass_class == 0) && cls == ctx.uclass_class
      then (true, ctx)
      else if not (validate_ptr cls)
      then (false, ctx)
      else if is_class_name named.0
      then (true, kept)
      else (false, named.1)

  unfoldable pub super_of : (obj : ℕ) → ℕ
  super_of obj =
      let super_ptr = read_ptr vm (add64 obj 0x30) in
      if validate_ptr super_ptr then super_ptr else read_ptr vm (add64 obj 0x40)

  unfoldable pub super_path : Ctx → (super_ptr : ℕ) → Bytes × Ctx
  super_path ctx super_ptr =
      if validate_ptr super_ptr then build_path_name vm ctx super_ptr 512 0 else ([], ctx)

  unfoldable pub struct_size_of : (obj : ℕ) → ℤ
  struct_size_of obj =
      let size = read_i32 vm (add64 obj 0x40) in
      or_zero (if not size.1 || is_zero size.0 then read_i32 vm (add64 obj 0x58) else size)

  -- The class that an object is.
  unfoldable pub read_class : (fuel : ℕ) → Ctx → (obj : ℕ) → Option (Class × Ctx)
  read_class fuel ctx obj =
      let path = build_path_name vm ctx obj 512 0 in
      let super = super_path path.1 (super_of obj) in
      elim (read_properties vm fuel super.1 obj) [
        | none ↦ none
        | some props ↦
            let funcs = read_functions vm props.1 obj in
            some (
              record {
                name = path.0;
                super_name = super.0;
                struct_size = struct_size_of obj;
                properties = props.0;
                functions = funcs.0;
              },
              funcs.1,
            )
      ]

  -- The body of the loops: the class, if the object is one.
  unfoldable pub visit : (fuel : ℕ) → Ctx → (obj : ℕ) → Option (Option Class × Ctx)
  visit fuel ctx obj =
      let tested = is_uclass ctx (read_ptr vm (add64 obj 0x10)) in
      let class_read : Option (Option Class × Ctx) = elim (read_class fuel tested.1 obj) [
        | none ↦ none
        | some r ↦ some (some r.0, r.1)
      ] in
      if not (validate_ptr obj)
      then some (none, ctx)
      else if tested.0
      then class_read
      else some (none, tested.1)
