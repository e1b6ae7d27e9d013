-- ===== src/Reflection/Init.antt =====
-- `ue4r_init`, and the searches `try_find_guobjectarray` and `try_find_gnamepool`, which are not
-- implemented and find nothing.
pub mod Ready
mod Tests
use perfect_build_radar_touc.Base.{
  ℕ, zero, suc, ◌+◌, ◌-◌, ◌/◌, Bool, true, false, not, List, [], ◌∷◌, Option, none, some, ltb, leb,
  ◌==◌, if◌then◌else◌, replicate, Bytes, add64, le,
}
use perfect_build_radar_touc.Config.{config_runtime_address}
use perfect_build_radar_touc.Remote.{Vm, read, read_ptr, validate_ptr}
use perfect_build_radar_touc.Reflection.{Slot, Ctx}
use perfect_build_radar_touc.Reflection.Objects.{find_uclass_class}

abbrev pub try_find_guobjectarray : (image_base slide : ℕ) → ℕ
try_find_guobjectarray image_base slide = 0

abbrev pub try_find_gnamepool : (image_base slide : ℕ) → ℕ
try_find_gnamepool image_base slide = 0

-- The address of a global: from the configuration, or what is found, or a known offset.
abbrev pub global_address : (off found known image_base slide : ℕ) → ℕ
global_address off found known image_base slide =
    if not (off == 0)
    then config_runtime_address off image_base slide
    else if found == 0
    then add64 image_base known
    else found

-- The context after `calloc`, with the addresses of the globals.
unfoldable pub empty_ctx : (image_base slide guobj_off gnames_off : ℕ) → Ctx
empty_ctx image_base slide guobj_off gnames_off = record {
  image_base = image_base;
  slide = slide;
  guobjectarray =
      global_address guobj_off (try_find_guobjectarray image_base slide) 0x0aad_3898 image_base
        slide;
  gnamepool =
      global_address gnames_off (try_find_gnamepool image_base slide) 0x0a89_8170 image_base slide;
  gname_chunk_table = 0;
  cached_chunks = λ i. 0;
  uclass_class = 0;
  lookup_keys = λ i. 0;
  lookup_matches = λ i. false;
  lookup_class = 0;
  lookup_name = [];
  name_cache = λ i. record { comp_index = none; name = [] };
}

module _ (vm : Vm) where
  -- The loop of the dereferences that are left.
  unfoldable pub deref : (deref_count ptr : ℕ) → ℕ
  deref zero ptr = ptr
  deref (suc deref_count) ptr =
      let next = deref deref_count (read_ptr vm ptr) in if validate_ptr ptr then next else ptr

  -- How often the pool's pointer is followed; what cannot be read counts as 0.
  unfoldable pub deref_count_of : (gnamepool : ℕ) → ℕ
  deref_count_of gnamepool =
      let val0 = le (read vm gnamepool (replicate 4 0) 4).1 in
      if leb 100 val0 then (val0 - 100) / 3 else 0

  unfoldable pub chunk_table_of : (gnamepool : ℕ) → ℕ
  chunk_table_of gnamepool =
      let ptr = read_ptr vm (add64 gnamepool 8) in
      deref (deref_count_of gnamepool) (if ptr == 0 then read_ptr vm gnamepool else ptr)

  -- From the meta-class on.
  unfoldable pub with_uclass : Ctx → Ctx
  with_uclass ctx =
      let found = find_uclass_class vm ctx in record found.1 { uclass_class = found.0 }

  -- Nothing stands for the null pointer. `allocated` says whether `calloc` succeeds.
  unfoldable pub init : (allocated : Bool) (image_base slide guobj_off gnames_off : ℕ) → Option Ctx
  init allocated image_base slide guobj_off gnames_off =
      let ctx = empty_ctx image_base slide guobj_off gnames_off in
      if not allocated
      then none
      else if ltb 16 (deref_count_of ctx.gnamepool)
      then none
      else some (with_uclass (record ctx { gname_chunk_table = chunk_table_of ctx.gnamepool }))
