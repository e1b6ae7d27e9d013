-- ===== src/Reflection/Members.antt =====
-- `read_properties` and `read_functions`: the members of a class, linked in the target.
pub mod Walk
pub mod Bounds
pub mod Functions
mod Tests
use perfect_build_radar_touc.Base.{
  ℕ, zero, suc, ◌+◌, ◌-◌, ◌^◌, Bool, true, false, not, ◌&&◌, ◌||◌, List, [], ◌∷◌, Option, none,
  some, ◌==◌, if◌then◌else◌, Bytes, add64, ℤ, pos, negsuc, fit, codes, contains, same_text,
}
use perfect_build_radar_touc.Remote.{Vm, read_ptr, read_i32, read_u16, validate_ptr}
use perfect_build_radar_touc.Json.{Property, Function}
use perfect_build_radar_touc.Reflection.{Ctx}
use perfect_build_radar_touc.Reflection.Names.{resolve_name, resolve_object_name}
use perfect_build_radar_touc.Reflection.Path.{name_or}

abbrev pub max_list_walk : ℕ
max_list_walk = 1000

-- A test against 0.
abbrev pub is_zero : ℤ → Bool
is_zero (pos n) = n == 0
is_zero (negsuc n) = false

-- `(uint32_t)x`.
abbrev pub word32 : ℤ → ℕ
word32 (pos n) = n
word32 (negsuc n) = 2 ^ 32 - n - 1

-- The value of a read, or 0 if it failed.
abbrev pub or_zero : ℤ × Bool → ℤ
or_zero r = if r.1 then r.0 else pos 0

module _ (vm : Vm) where
  -- The first of three pointers that passes the check, or else the last.
  unfoldable pub first_property : ℕ → ℕ
  first_property class_addr =
      let children = read_ptr vm (add64 class_addr 0x38) in
      let child_props = read_ptr vm (add64 class_addr 0x50) in
      if validate_ptr children
      then children
      else if validate_ptr child_props
      then child_props
      else read_ptr vm (add64 class_addr 0x48)

  -- A UProperty, of the type that its class is named after.
  unfoldable pub read_uproperty : Ctx → ℕ → Bytes → Property × Ctx
  read_uproperty ctx prop_ptr type_buf =
      let named = resolve_name vm ctx (add64 prop_ptr 0x18) 256 in
      let offset = (read_i32 vm (add64 prop_ptr 0x44)).0 in
      (
        record {
          name = name_or (codes "<unknown>") named.0;
          type = fit 256 type_buf;
          offset = if is_zero offset then (read_i32 vm (add64 prop_ptr 0x4c)).0 else offset;
          element_size = (read_i32 vm (add64 prop_ptr 0x34)).0;
          array_dim = (read_i32 vm (add64 prop_ptr 0x30)).0;
        },
        named.1,
      )

  -- The type of an FProperty.
  unfoldable pub field_type : Ctx → ℕ → Bytes × Ctx
  field_type ctx fclass =
      let typed = resolve_name vm ctx fclass 256 in
      if validate_ptr fclass
      then (name_or (codes "Unknown") typed.0, typed.1)
      else (codes "Unknown", ctx)

  unfoldable pub read_fproperty : Ctx → ℕ → Property × Ctx
  read_fproperty ctx prop_ptr =
      let named = resolve_name vm ctx (add64 prop_ptr 0x28) 256 in
      let typed = field_type named.1 (read_ptr vm (add64 prop_ptr 0x08)) in
      (
        record {
          name = name_or (codes "<unknown>") named.0;
          type = typed.0;
          offset = or_zero (read_i32 vm (add64 prop_ptr 0x4c));
          element_size = or_zero (read_i32 vm (add64 prop_ptr 0x3c));
          array_dim = or_zero (read_i32 vm (add64 prop_ptr 0x38));
        },
        typed.1,
      )

  -- A UField has a class; the link to the next member lies where its kind has it.
  unfoldable pub next_member : ℕ → ℕ
  next_member prop_ptr =
      if validate_ptr (read_ptr vm (add64 prop_ptr 0x10))
      then read_ptr vm (add64 prop_ptr 0x28)
      else read_ptr vm (add64 prop_ptr 0x20)

  -- A UField: a property if the name of its class says so, or else skipped.
  unfoldable pub read_ufield : Ctx → ℕ → Option Property × Ctx
  read_ufield ctx prop_ptr =
      let typed = resolve_name vm ctx (add64 (read_ptr vm (add64 prop_ptr 0x10)) 0x18) 256 in
      elim typed.0 [
        | none ↦ (none, typed.1)
        | some type_buf ↦
            let p = read_uproperty typed.1 prop_ptr type_buf in
            if contains type_buf (codes "Property") then (some p.0, p.1) else (none, typed.1)
      ]

  unfoldable pub read_member : Ctx → ℕ → Option Property × Ctx
  read_member ctx prop_ptr =
      let p = read_fproperty ctx prop_ptr in
      if validate_ptr (read_ptr vm (add64 prop_ptr 0x10))
      then read_ufield ctx prop_ptr
      else (some p.0, p.1)

  -- The loop, with `room` properties to go; a member that is skipped takes none of them. The fuel
  -- counts the rounds, and there is no result when they run out.
  unfoldable pub walk_properties :
      (fuel room : ℕ) → Ctx → (prop_ptr : ℕ) → Option (List Property × Ctx)
  walk_properties zero room ctx prop_ptr = none
  walk_properties (suc fuel) room ctx prop_ptr =
      let member = read_member ctx prop_ptr in
      let skipped = walk_properties fuel room member.1 (next_member prop_ptr) in
      let counted = walk_properties fuel (room - 1) member.1 (next_member prop_ptr) in
      if not (validate_ptr prop_ptr) || room == 0 then some ([], ctx) else elim member.0 [
        | none ↦ skipped
        | some p ↦ elim counted [ none ↦ none | some r ↦ some (p ∷ r.0, r.1) ]
      ]

  unfoldable pub read_properties : (fuel : ℕ) → Ctx → ℕ → Option (List Property × Ctx)
  read_properties fuel ctx class_addr =
      walk_properties fuel max_list_walk ctx (first_property class_addr)

  unfoldable pub first_function : ℕ → ℕ
  first_function class_addr =
      let children = read_ptr vm (add64 class_addr 0x38) in
      if validate_ptr children then children else read_ptr vm (add64 class_addr 0x48)

  -- The two places of the flags, the second one where the first cannot be read or holds 0.
  unfoldable pub function_flags : ℕ → ℕ
  function_flags child =
      let f = read_i32 vm (add64 child 0x88) in
      let g = read_i32 vm (add64 child 0xb0) in
      let chosen = if not f.1 || is_zero f.0 then g else f in word32 (or_zero chosen)

  unfoldable pub function_parms_size : ℕ → ℕ
  function_parms_size child =
      let f = read_u16 vm (add64 child 0x8e) in
      let g = read_u16 vm (add64 child 0xb6) in
      let chosen = if not f.1 || f.0 == 0 then g else f in if chosen.1 then chosen.0 else 0

  unfoldable pub read_function : Ctx → ℕ → Function × Ctx
  read_function ctx child =
      let named = resolve_object_name vm ctx child 256 in
      (
        record {
          name = name_or (codes "<unknown>") named.0;
          flags = function_flags child;
          parms_size = function_parms_size child;
        },
        named.1,
      )

  -- The loop, with as many rounds as the source allows.
  unfoldable pub walk_functions : (rounds : ℕ) → Ctx → (child : ℕ) → List Function × Ctx
  walk_functions zero ctx child = ([], ctx)
  walk_functions (suc rounds) ctx child =
      let child_class = read_ptr vm (add64 child 0x10) in
      let named = resolve_object_name vm ctx child_class 256 in
      let f = read_function named.1 child in
      let next = read_ptr vm (add64 child 0x28) in
      let taken = walk_functions rounds f.1 next in
      let skipped = walk_functions rounds named.1 next in
      if not (validate_ptr child)
      then ([], ctx)
      else if same_text (name_or [] named.0) (codes "Function")
      then (f.0 ∷ taken.0, taken.1)
      else skipped

  unfoldable pub read_functions : Ctx → ℕ → List Function × Ctx
  read_functions ctx class_addr = walk_functions max_list_walk ctx (first_function class_addr)
