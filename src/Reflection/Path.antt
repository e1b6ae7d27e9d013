-- ===== src/Reflection/Path.antt =====
-- `build_path_name`. The levels that are left stand for the depth: at depth `d` they are `11 - d`.
pub mod Bounds
use perfect_build_radar_touc.Base.{
  ℕ, zero, suc, ◌+◌, ◌-◌, Bool, true, false, not, List, [], ◌∷◌, ◌++◌, Option, none, some, ◌==◌,
  if◌then◌else◌, Bytes, add64, fit, codes,
}
use perfect_build_radar_touc.Remote.{Vm, read_ptr, validate_ptr}
use perfect_build_radar_touc.Reflection.{Ctx}
use perfect_build_radar_touc.Reflection.Names.{resolve_object_name}

abbrev pub max_path_depth : ℕ
max_path_depth = 10

-- The text of a name, or what stands for one that cannot be read.
abbrev pub name_or : Bytes → Option Bytes → Bytes
name_or other none = other
name_or other (some name) = name

-- The path of an object without an outer one.
unfoldable pub root_path : Bytes → Bytes
root_path [] = 47 ∷ []
root_path (c ∷ name) = if c == 47 then c ∷ name else 47 ∷ c ∷ name

unfoldable pub path_name : Vm → (levels : ℕ) → Ctx → (obj_addr max : ℕ) → Bytes × Ctx
path_name vm zero ctx obj_addr max = (fit max (codes "..."), ctx)
path_name vm (suc levels) ctx obj_addr max =
    let named = resolve_object_name vm ctx obj_addr 256 in
    let name = name_or (codes "<unknown>") named.0 in
    let outer = read_ptr vm (add64 obj_addr 0x20) in
    let outer_path = path_name vm levels named.1 outer 512 in
    if not (validate_ptr obj_addr)
    then (fit max (codes "<null>"), ctx)
    else if validate_ptr outer
    then (fit max (outer_path.0 ++ codes "." ++ name), outer_path.1)
    else (fit max (root_path name), named.1)

unfoldable pub build_path_name : Vm → Ctx → (obj_addr max depth : ℕ) → Bytes × Ctx
build_path_name vm ctx obj_addr max depth =
    path_name vm (max_path_depth + 1 - depth) ctx obj_addr max
