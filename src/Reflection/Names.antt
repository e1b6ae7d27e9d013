-- ===== src/Reflection/Names.antt =====
-- `ue4r_resolve_name` and `resolve_object_name`. The buffer is empty after a failure, so the result
-- is the text or nothing.
pub mod Cache
pub mod Again
mod Tests
use perfect_build_radar_touc.Base.{
  ℕ, zero, suc, ◌+◌, ◌-◌, ◌*◌, ◌/◌, ◌%◌, min, Bool, true, false, not, ◌&&◌, ◌||◌, List, [], ◌∷◌,
  ◌++◌, Option, none, some, ltb, leb, ◌==◌, if◌then◌else◌, take, drop, length, Bytes, add64, le, ℤ,
  pos, negsuc, ltb_int, nat_of, fit,
}
use perfect_build_radar_touc.Base.Decimal.{show_nat}
use perfect_build_radar_touc.Remote.{
  Vm, fetch, read_ptr, read_i32, read_u16, read_string, validate_ptr,
}
use perfect_build_radar_touc.Remote.Text.{cut}
use perfect_build_radar_touc.Reflection.{Slot, Ctx}

abbrev pub name_cache_size : ℕ
name_cache_size = 8192

-- A write to an array.
abbrev pub update {ℓ} : {A : Type ℓ} → (ℕ → A) → ℕ → A → ℕ → A
update f i v j = if j == i then v else f j

abbrev pub is_index : Option ℕ → ℕ → Bool
is_index none i = false
is_index (some j) i = j == i

-- The low bytes of at most `n` UTF-16 units, up to a zero byte.
unfoldable pub narrow_wide : ℕ → Bytes → Bytes
narrow_wide zero wide_buf = []
narrow_wide (suc n) [] = []
narrow_wide (suc n) (c ∷ rest) =
    let more = narrow_wide n (drop 1 rest) in if c == 0 then [] else c ∷ more

-- A text that is not empty.
abbrev pub nonempty : Bytes → Option Bytes
nonempty [] = none
nonempty (c ∷ s) = some (c ∷ s)

-- `_%d` behind a name with a number above 0.
unfoldable pub suffix : ℤ → Bytes
suffix number = if ltb_int (pos 0) number then 95 ∷ show_nat (nat_of number - 1) else []

-- The cache keeps 59 bytes of the name.
unfoldable pub remember_name : Ctx → (comp_index : ℕ) → Bytes → Ctx
remember_name ctx comp_index name = record ctx {
  name_cache =
      update ctx.name_cache (comp_index % name_cache_size)
        (record { comp_index = some comp_index; name = take 59 name });
}

-- The suffix goes into the buffer of 1024 bytes when it fits.
unfoldable pub with_suffix : Bytes → ℤ → Bytes
with_suffix name number =
    if ltb (length name + length (suffix number)) 1024 then name ++ suffix number else name

module _ (vm : Vm) where
  -- The name of an `FNameEntry`.
  unfoldable pub entry_name : ℕ → Option Bytes
  entry_name entry_ptr =
      let flags = read_u16 vm (add64 entry_ptr 8) in
      let text = read_string vm (add64 entry_ptr 0x0c) 1024 in
      let wide : Option Bytes = elim (fetch vm (add64 entry_ptr 0x0c) 512) [
        | none ↦ none
        | some wide_buf ↦ nonempty (narrow_wide 256 wide_buf)
      ] in
      if flags.1 && flags.0 % 2 == 1 then wide else if text.0 then nonempty text.1 else none

  -- The entry that a chunk holds for a comparison index.
  unfoldable pub chunk_name : (chunk_ptr comp_index : ℕ) → Option Bytes
  chunk_name chunk_ptr comp_index =
      let entry_ptr = read_ptr vm (add64 chunk_ptr (comp_index % 16384 * 8)) in
      if validate_ptr chunk_ptr && validate_ptr entry_ptr then entry_name entry_ptr else none

  -- Strategy A: the chunk table, whose pointers are kept once they are read.
  unfoldable pub cached_name : Ctx → (comp_index : ℕ) → Option Bytes × Ctx
  cached_name ctx comp_index =
      let chunk_idx = comp_index / 16384 in
      let known = ctx.cached_chunks chunk_idx in
      let read = read_ptr vm (add64 ctx.gname_chunk_table (chunk_idx * 8)) in
      if validate_ptr ctx.gname_chunk_table && ltb chunk_idx 32
      then (if known == 0
          then (
            chunk_name read comp_index,
            record ctx { cached_chunks = update ctx.cached_chunks chunk_idx read },
          )
          else (chunk_name known comp_index, ctx))
      else (none, ctx)

  -- The loop over the three other tables.
  unfoldable pub table_name : List ℕ → (comp_index : ℕ) → Option Bytes
  table_name [] comp_index = none
  table_name (table ∷ tables) comp_index =
      let chunk_ptr = read_ptr vm (add64 table (comp_index / 16384 * 8)) in
      let rest = table_name tables comp_index in
      if validate_ptr table
      then elim (chunk_name chunk_ptr comp_index) [ none ↦ rest | some name ↦ some name ]
      else rest

  abbrev pub chunk_tables : Ctx → List ℕ
  chunk_tables ctx =
      ctx.gnamepool ∷ read_ptr vm ctx.gnamepool ∷ read_ptr vm (add64 ctx.gnamepool 8) ∷ []

  -- Strategy B: the blocks of an FNamePool. `max` is the room of the caller's buffer.
  unfoldable pub block_name : Ctx → (comp_index max : ℕ) → Option Bytes
  block_name ctx comp_index max =
      let block_ptr = read_ptr vm (add64 (add64 ctx.gnamepool 0x40) (comp_index / 65536 * 8)) in
      let entry_addr = add64 block_ptr (comp_index % 65536 * 2) in
      let header = read_u16 vm entry_addr in
      let len = header.0 / 64 in
      let name_cap = min (if ltb len (max - 1) then len else max - 1) 1023 in
      if validate_ptr block_ptr && header.1 && ltb 0 len && leb len 1024 && not (header.0 % 2 == 1)
      then elim (fetch vm (add64 entry_addr 2) name_cap) [
        | none ↦ none
        | some text ↦ some (cut text)
      ]
      else none

  -- The name without the cache, with the chunk pointers that are left.
  unfoldable pub fresh_name : Ctx → (comp_index max : ℕ) → Option Bytes × Ctx
  fresh_name ctx comp_index max =
      let cached = cached_name ctx comp_index in
      let other : Option Bytes = elim (table_name (chunk_tables ctx) comp_index) [
        | none ↦ block_name ctx comp_index max
        | some name ↦ some name
      ] in
      (elim cached.0 [ none ↦ other | some name ↦ some name ], cached.1)

  -- From the cache on.
  unfoldable pub resolve_index :
      Ctx → (comp_index : ℕ) → (number : ℤ) → (max : ℕ) → Option Bytes × Ctx
  resolve_index ctx comp_index number max =
      let slot = ctx.name_cache (comp_index % name_cache_size) in
      let fresh = fresh_name ctx comp_index max in
      if is_index slot.comp_index comp_index && not (length slot.name == 0)
      then (some (fit max (slot.name ++ suffix number)), ctx)
      else elim fresh.0 [
        | none ↦ (none, fresh.1)
        | some name ↦
            (some (fit max (with_suffix name number)), remember_name fresh.1 comp_index name)
      ]

  unfoldable pub resolve_name : Ctx → (fname_addr max : ℕ) → Option Bytes × Ctx
  resolve_name ctx fname_addr max =
      let index = read_i32 vm fname_addr in
      let number = read_i32 vm (add64 fname_addr 4) in
      if max == 0 || not (validate_ptr fname_addr)
      then (none, ctx)
      else if not index.1 || ltb_int index.0 (pos 0)
      then (none, ctx)
      else resolve_index ctx (nat_of index.0) (if number.1 then number.0 else pos 0) max

  unfoldable pub resolve_object_name : Ctx → (obj_addr max : ℕ) → Option Bytes × Ctx
  resolve_object_name ctx obj_addr max =
      if validate_ptr obj_addr then resolve_name ctx (add64 obj_addr 0x18) max else (none, ctx)
