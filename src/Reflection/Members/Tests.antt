-- ===== src/Reflection/Members/Tests.antt =====
-- A member that links to itself.
use perfect_build_radar_touc.Base.{false, ◌≡◌, refl, [], ◌∷◌, none, some, ◌==◌, if◌then◌else◌, le}
use perfect_build_radar_touc.Remote.{Vm, read, fetch, read_ptr, read_i32, validate_ptr}
use perfect_build_radar_touc.Reflection.{Ctx}
use perfect_build_radar_touc.Reflection.Names.{resolve_name}
use perfect_build_radar_touc.Reflection.Members.{
  first_property, next_member, read_ufield, read_member, read_properties,
}
use perfect_build_radar_touc.Reflection.Members.Walk.{read_properties-none}

-- The third byte of a pointer: the class at 0x30000 has the member at 0x40000, of the class at
-- 0x50000, whose name cannot be read.
abbrev looped : Vm
looped a n =
    if n == 8
    then some (
        0
        ∷ 0
        ∷ (if a == 0x30038 then 4 else if a == 0x40010 then 5 else if a == 0x40028 then 4 else 0)
        ∷ 0
        ∷ 0
        ∷ 0
        ∷ 0
        ∷ 0
        ∷ [])
    else none

looped-skips : (ctx : Ctx) → (read_member looped ctx (first_property looped 0x30000)).0 ≡ none
unfolding first_property read_member read_ufield resolve_name read fetch read_ptr read_i32
    validate_ptr le
looped-skips ctx = refl

abbrev ctx : Ctx
ctx = record {
  image_base = 0;
  slide = 0;
  guobjectarray = 0;
  gnamepool = 0;
  gname_chunk_table = 0;
  cached_chunks = λ i. 0;
  uclass_class = 0;
  lookup_keys = λ i. 0;
  lookup_matches = λ i. false;
  lookup_class = 0;
  lookup_name = [];
  name_cache = λ i. record { comp_index = none; name = [] };
}

read_properties-none_example : read_properties looped 100000 ctx 0x30000 ≡ none
unfolding first_property next_member read fetch read_ptr validate_ptr le
read_properties-none_example = read_properties-none looped 0x30000 refl refl looped-skips 100000 ctx
