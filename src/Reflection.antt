-- ===== src/Reflection.antt =====
-- The reflection walker of source/daemon/ue4_reflection.c over a snapshot of the target, with the
-- offsets of ue4_offsets.h. Of the calls of `calloc` only that of `ue4r_init` can fail here, and
-- what is printed is left out.
pub mod Names
pub mod Path
pub mod Members
pub mod Objects
pub mod Classes
pub mod Instance
pub mod Init
use perfect_build_radar_touc.Base.{ℕ, Bool, true, false, List, [], Option, none, some, Bytes, ℤ}

-- A slot of the name cache; no index stands for -1.
pub record Slot : Type 0 where
  pub comp_index : Option ℕ
  pub name : Bytes

-- `struct ue4r_ctx` without the task port. Its arrays are functions of the index.
pub record Ctx : Type 0 where
  pub image_base : ℕ
  pub slide : ℕ
  pub guobjectarray : ℕ
  pub gnamepool : ℕ
  pub gname_chunk_table : ℕ
  pub cached_chunks : ℕ → ℕ
  pub uclass_class : ℕ
  pub lookup_keys : ℕ → ℕ
  pub lookup_matches : ℕ → Bool
  pub lookup_class : ℕ
  pub lookup_name : Bytes
  pub name_cache : ℕ → Slot
