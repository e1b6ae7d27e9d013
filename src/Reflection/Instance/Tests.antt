-- ===== src/Reflection/Instance/Tests.antt =====
-- A target with one object, whose class derives from the class of the lookup.
use perfect_build_radar_touc.Base.{
  ℕ, ◌≡◌, ◌≢◌, refl, ◌⊎◌, arith, false, [], ◌∷◌, ◌++◌, none, some, ◌==◌, if◌then◌else◌, replicate,
  pos, negsuc, le, Bytes, same_text,
}
use perfect_build_radar_touc.Remote.{Vm, read, fetch, read_ptr, read_i32, validate_ptr}
use perfect_build_radar_touc.Reflection.{Ctx}
use perfect_build_radar_touc.Reflection.Objects.{usable, read_object_from_array, get_objects_info}
use perfect_build_radar_touc.Reflection.Instance.{
  ready, derives, object_at, remember_match, see_object, see_instance, with_match, search,
  search_batch, find_from, find_instance,
}
use perfect_build_radar_touc.Reflection.Instance.Sound.{IsLookup, IsInstance}
use perfect_build_radar_touc.Reflection.Instance.Found.{find_instance-IsInstance}
use perfect_build_radar_touc.Reflection.Instance.Progress.{IsKnown}
use perfect_build_radar_touc.Reflection.Instance.Repeat.{lookups, lookups-ends}

-- The third byte of a pointer.
abbrev page : ℕ → ℕ
page a = if a == 0x10010 then 2 else if a == 0x50030 then 6 else 0

-- The array has the object at 0x30000, of the class at 0x50000 below that at 0x60000.
abbrev target : Vm
target a n =
    if n == 8
    then some (0 ∷ 0 ∷ page a ∷ 0 ∷ 0 ∷ 0 ∷ 0 ∷ 0 ∷ [])
    else if n == 4
    then some ((if a == 0x10024 then 1 else 0) ∷ 0 ∷ 0 ∷ 0 ∷ [])
    else if n == 24
    then some
        (if a == 0x20000 then 0 ∷ 0 ∷ 3 ∷ replicate 21 0 else replicate 18 0 ++ 5 ∷ replicate 5 0)
    else none

abbrev name : Bytes
name = 65 ∷ []

abbrev ctx : Ctx
ctx = record {
  image_base = 0;
  slide = 0;
  guobjectarray = 0x10000;
  gnamepool = 0;
  gname_chunk_table = 0;
  cached_chunks = λ i. 0;
  uclass_class = 0x70000;
  lookup_keys = λ i. 0;
  lookup_matches = λ i. false;
  lookup_class = 0x60000;
  lookup_name = name;
  name_cache = λ i. record { comp_index = none; name = [] };
}

ctx-IsLookup : IsLookup target ctx
unfolding IsLookup
ctx-IsLookup = (λ h slot. refl, λ slot h. absurd (h refl))

ctx-IsKnown : IsKnown name 0x10000 ctx
unfolding IsKnown ready same_text
ctx-IsKnown = (λ h. ground (arith, h), refl, refl, refl)

target-objects : get_objects_info target 0x10000 ≡ some (record { ptr = 0x20000; count = 1 })
unfolding get_objects_info usable read fetch read_ptr read_i32 validate_ptr le
target-objects = refl

find_instance_runs : (find_instance target ctx name (pos 0)).0 ≡ 0x30000
unfolding ready derives object_at remember_match see_object see_instance with_match search
    search_batch find_from find_instance get_objects_info usable read_object_from_array read fetch
    read_ptr read_i32 validate_ptr le same_text
find_instance_runs = refl

find_instance-IsInstance_example :
    (((find_instance target ctx name (pos 0)).0 ≡ 0)
      ⊎ IsInstance target
          (find_instance target ctx name (pos 0)).2
          (find_instance target ctx name (pos 0)).0)
    × IsLookup target (find_instance target ctx name (pos 0)).2
find_instance-IsInstance_example = find_instance-IsInstance target ctx name (pos 0) ctx-IsLookup

lookups-ends_example :
    ((lookups target name 1 (pos 0) ctx).0 ≢ 0) ⊎ ((lookups target name 1 (pos 0) ctx).1 ≡ negsuc 0)
lookups-ends_example =
    lookups-ends target name 0x10000 (record { ptr = 0x20000; count = 1 }) 1 0 ctx target-objects
      (omega arith) (omega arith) (omega arith) ctx-IsKnown
