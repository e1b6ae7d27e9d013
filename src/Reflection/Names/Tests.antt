-- ===== src/Reflection/Names/Tests.antt =====
-- A name pool with one name of 70 letters, and a short one with a number.
use perfect_build_radar_touc.Base.{
  ℕ, ◌+◌, ◌-◌, ◌≡◌, ◌≢◌, refl, arith, false, [], ◌∷◌, ◌++◌, none, some, ltb, ◌==◌, if◌then◌else◌,
  pos, le, codes, replicate,
}
use perfect_build_radar_touc.Base.Decimal.{show_nat, digits_before}
use perfect_build_radar_touc.Remote.{
  Vm, read, fetch, read_ptr, read_i32, read_u16, copy_chunk, read_chunks, read_string, validate_ptr,
}
use perfect_build_radar_touc.Reflection.{Ctx}
use perfect_build_radar_touc.Reflection.Names.{
  entry_name, chunk_name, cached_name, fresh_name, remember_name, with_suffix, suffix,
  resolve_index, resolve_name,
}
use perfect_build_radar_touc.Reflection.Names.Cache.{IsSlot, IsCached}
use perfect_build_radar_touc.Reflection.Names.Again.{IsMiss, resolve_index-ne-again}

-- The second byte of the words of the chunk table at 0x2000, its chunk at 0x3000 and the entry at
-- 0x4000.
abbrev second : ℕ → ℕ
second a = if a == 0x2000 then 0x30 else if a == 0x3008 then 0x40 else 0

-- Names of `n` letters; the index of the name at 0x5000 is 1 and its number 3.
abbrev pool : ℕ → Vm
pool letters a n =
    if n == 8
    then some (0 ∷ second a ∷ 0 ∷ 0 ∷ 0 ∷ 0 ∷ 0 ∷ 0 ∷ [])
    else if n == 4
    then some ((if a == 0x5000 then 1 else 3) ∷ 0 ∷ 0 ∷ 0 ∷ [])
    else if n == 2
    then some (0 ∷ 0 ∷ [])
    else some (
        replicate (if ltb (a + n) (0x400c + letters) then n else 0x400c + letters - a) 97
        ++ replicate (a + n - (0x400c + letters)) 0)

abbrev ctx : Ctx
ctx = record {
  image_base = 0;
  slide = 0;
  guobjectarray = 0;
  gnamepool = 0;
  gname_chunk_table = 0x2000;
  cached_chunks = λ i. 0;
  uclass_class = 0;
  lookup_keys = λ i. 0;
  lookup_matches = λ i. false;
  lookup_class = 0;
  lookup_name = [];
  name_cache = λ i. record { comp_index = none; name = [] };
}

resolve_name_runs :
    ((resolve_name (pool 2) ctx 0x5000 32).0 ≡ some (codes "aa_2"))
    × ((resolve_name (pool 2) ctx 0x5000 4).0 ≡ some (codes "aa_"))
    × ((resolve_name (pool 2) ctx 0 32).0 ≡ none)
unfolding resolve_name resolve_index fresh_name cached_name chunk_name entry_name remember_name
    with_suffix suffix show_nat digits_before read fetch read_ptr read_i32 read_u16 copy_chunk
    read_chunks read_string validate_ptr le
resolve_name_runs = (refl, refl, refl)

ctx-IsCached : IsCached ctx
unfolding IsCached IsSlot
ctx-IsCached i = (omega arith, λ n e. absurd (ground (arith, e)))

ctx-IsMiss : IsMiss ctx 1
unfolding IsMiss
ctx-IsMiss = refl

fresh_names :
    ((fresh_name (pool 2) ctx 1 128).0 ≡ some (replicate 2 97))
    × ((fresh_name (pool 70) ctx 1 128).0 ≡ some (replicate 70 97))
unfolding fresh_name cached_name chunk_name entry_name read fetch read_ptr read_u16 copy_chunk
    read_chunks read_string validate_ptr le
fresh_names = (refl, refl)

resolve_index-ne-again_example :
    (resolve_index (pool 70) (resolve_index (pool 70) ctx 1 (pos 0) 128).1 1 (pos 0) 128).0
    ≢ (resolve_index (pool 70) ctx 1 (pos 0) 128).0
resolve_index-ne-again_example =
    resolve_index-ne-again (pool 70) (pool 70) ctx 1 128 (replicate 70 97) ctx-IsMiss fresh_names.1
      (omega arith) (omega arith)
