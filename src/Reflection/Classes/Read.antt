-- ===== src/Reflection/Classes/Read.antt =====
-- What is read of one object.
use perfect_build_radar_touc.Base.{
  ℕ, ◌≤◌, ◌<◌, ◌≡◌, Bool, true, false, not, ◌&&◌, List, [], Option, none, some, arith, ◌==◌,
  if◌then◌else◌, if-split, length, All, Bytes, add64,
}
use perfect_build_radar_touc.Remote.{Vm, read_ptr, validate_ptr}
use perfect_build_radar_touc.Json.{Class, Property}
use perfect_build_radar_touc.Reflection.{Ctx}
use perfect_build_radar_touc.Reflection.Names.{resolve_object_name}
use perfect_build_radar_touc.Reflection.Names.Cache.{IsCached, resolve_object_name-IsCached}
use perfect_build_radar_touc.Reflection.Path.{build_path_name}
use perfect_build_radar_touc.Reflection.Path.Bounds.{IsStart, build_path_name_bounds}
use perfect_build_radar_touc.Reflection.Members.{
  max_list_walk, first_property, first_function, read_properties, read_functions,
}
use perfect_build_radar_touc.Reflection.Members.Bounds.{
  IsProperty, IsProperties, walk_properties-IsProperties,
}
use perfect_build_radar_touc.Reflection.Members.Functions.{
  IsFunction, IsFunctions, walk_functions-IsFunctions,
}
use perfect_build_radar_touc.Reflection.Objects.{is_class_name}
use perfect_build_radar_touc.Reflection.Classes.Visit.{
  is_uclass, super_of, super_path, struct_size_of, read_class, visit,
}

-- The texts fit their arrays of 512 bytes, the path starts as one, and the members are at most
-- 1000 each, with texts that fit theirs.
unfoldable pub IsClass : Class → Type 0
IsClass c =
    (length c.name < 512)
    × IsStart c.name
    × (length c.super_name < 512)
    × (length c.properties ≤ max_list_walk)
    × All IsProperty c.properties
    × (length c.functions ≤ max_list_walk)
    × All IsFunction c.functions

-- One class.
unfoldable pub IsRead : Option (Class × Ctx) → Type 0
IsRead none = Unit
IsRead (some r) = IsClass r.0 × IsCached r.1

-- What one object gives.
unfoldable pub IsFound : Option Class → Type 0
IsFound none = Unit
IsFound (some c) = IsClass c

unfoldable pub IsVisit : Option (Option Class × Ctx) → Type 0
IsVisit none = Unit
IsVisit (some r) = IsFound r.0 × IsCached r.1

other-IsCached : (ctx : Ctx) (cls : ℕ) → IsCached ctx → IsCached (record ctx { uclass_class = cls })
unfolding IsCached
other-IsCached ctx cls h = h

keep_class-IsCached :
    (ctx : Ctx) (cls : ℕ)
    → IsCached ctx
    → IsCached (if ctx.uclass_class == 0 then record ctx { uclass_class = cls } else ctx)
keep_class-IsCached ctx cls h =
    if-split IsCached (ctx.uclass_class == 0) (record ctx { uclass_class = cls }) ctx
      (λ _. other-IsCached ctx cls h) (λ _. h)

module _ (vm : Vm) where
  is_uclass-IsCached : (ctx : Ctx) (cls : ℕ) → IsCached ctx → IsCached (is_uclass vm ctx cls).1
  unfolding is_uclass
  is_uclass-IsCached ctx cls h =
      let named = resolve_object_name vm ctx cls 256 in
      let cached = (resolve_object_name-IsCached vm ctx cls 256 h).1 in
      let kept : Ctx =
        if named.1.uclass_class == 0 then record named.1 { uclass_class = cls } else named.1 in
      let P : Bool × Ctx → Type 0 = λ r. IsCached r.1 in
      let tested : Bool × Ctx = if is_class_name named.0 then (true, kept) else (false, named.1) in
      let untrusted : Bool × Ctx = if not (validate_ptr cls) then (false, ctx) else tested in
      if-split P (not (ctx.uclass_class == 0) && cls == ctx.uclass_class) (true, ctx) untrusted
        (λ _. h)
        (λ _.
          if-split P (not (validate_ptr cls)) (false, ctx) tested (λ _. h)
            (λ _.
              if-split P (is_class_name named.0) (true, kept) (false, named.1)
                (λ _. keep_class-IsCached named.1 cls cached) (λ _. cached)))

  super_path-lt :
      (ctx : Ctx) (super_ptr : ℕ)
      → IsCached ctx
      → (length (super_path vm ctx super_ptr).0 < 512) × IsCached (super_path vm ctx super_ptr).1
  unfolding super_path
  super_path-lt ctx super_ptr h =
      if-split (λ (r : Bytes × Ctx). (length r.0 < 512) × IsCached r.1) (validate_ptr super_ptr)
        (build_path_name vm ctx super_ptr 512 0) ([], ctx)
        (λ e.
          let path = build_path_name_bounds vm ctx super_ptr 512 0 e (omega arith) h in
          (path.0, path.2))
        (λ _. (omega arith, h))

  read_functions-IsFunctions :
      (ctx : Ctx) (obj : ℕ) → IsCached ctx → IsFunctions max_list_walk (read_functions vm ctx obj)
  unfolding read_functions
  read_functions-IsFunctions ctx obj h =
      walk_functions-IsFunctions vm max_list_walk ctx (first_function vm obj) h

  read_properties-IsProperties :
      (fuel : ℕ) (ctx : Ctx) (obj : ℕ)
      → IsCached ctx
      → IsProperties max_list_walk (read_properties vm fuel ctx obj)
  unfolding read_properties
  read_properties-IsProperties fuel ctx obj h =
      walk_properties-IsProperties vm fuel max_list_walk ctx (first_property vm obj) h

  -- The class from its parts.
  with_members-IsRead :
      (obj : ℕ) (name super_name : Bytes) (o : Option (List Property × Ctx))
      → length name < 512
      → IsStart name
      → length super_name < 512
      → IsProperties max_list_walk o
      → IsRead (elim o [
        | none ↦ none
        | some props ↦
            let funcs = read_functions vm props.1 obj in
            some (
              record {
                name = name;
                super_name = super_name;
                struct_size = struct_size_of vm obj;
                properties = props.0;
                functions = funcs.0;
              },
              funcs.1,
            )
      ])
  unfolding IsRead IsClass IsProperties IsFunctions
  with_members-IsRead obj name super_name none hn hs hsn h = tt
  with_members-IsRead obj name super_name (some props) hn hs hsn h =
      let funcs : IsFunctions max_list_walk (read_functions vm props.1 obj) =
        read_functions-IsFunctions props.1 obj h.2 in
      ((hn, hs, hsn, h.0, h.1, funcs.0, funcs.1), funcs.2)

  read_class-IsRead :
      (fuel : ℕ) (ctx : Ctx) (obj : ℕ)
      → validate_ptr obj ≡ true
      → IsCached ctx
      → IsRead (read_class vm fuel ctx obj)
  unfolding read_class
  read_class-IsRead fuel ctx obj hv h =
      let path = build_path_name vm ctx obj 512 0 in
      let path_good = build_path_name_bounds vm ctx obj 512 0 hv (omega arith) h in
      let super = super_path vm path.1 (super_of vm obj) in
      let super_good = super_path-lt path.1 (super_of vm obj) path_good.2 in
      with_members-IsRead obj path.0 super.0 (read_properties vm fuel super.1 obj) path_good.0
        path_good.1 super_good.0 (read_properties-IsProperties fuel super.1 obj super_good.1)

  passed-IsVisit : (ctx : Ctx) → IsCached ctx → IsVisit (some (none, ctx))
  unfolding IsVisit IsFound
  passed-IsVisit ctx h = (tt, h)

  class-IsVisit :
      (o : Option (Class × Ctx))
      → IsRead o
      → IsVisit (elim o [ none ↦ none | some r ↦ some (some r.0, r.1) ])
  unfolding IsVisit IsRead IsFound
  class-IsVisit none h = tt
  class-IsVisit (some r) h = h

  pub visit-IsVisit :
      (fuel : ℕ) (ctx : Ctx) (obj : ℕ) → IsCached ctx → IsVisit (visit vm fuel ctx obj)
  unfolding visit
  visit-IsVisit fuel ctx obj h =
      let cls = read_ptr vm (add64 obj 0x10) in
      let tested = is_uclass vm ctx cls in
      let cached = is_uclass-IsCached ctx cls h in
      let class_read : Option (Option Class × Ctx) = elim (read_class vm fuel tested.1 obj) [
        | none ↦ none
        | some r ↦ some (some r.0, r.1)
      ] in
      if-split IsVisit (not (validate_ptr obj)) (some (none, ctx))
        (if tested.0 then class_read else some (none, tested.1)) (λ _. passed-IsVisit ctx h)
        (λ e.
          if-split IsVisit tested.0 class_read (some (none, tested.1))
            (λ _.
              class-IsVisit (read_class vm fuel tested.1 obj)
                (read_class-IsRead fuel tested.1 obj (ground (arith, e)) cached))
            (λ _. passed-IsVisit tested.1 cached))
