-- ===== src/Remote/Values.antt =====
-- The numbers that the readers return: `rm_read_ptr`, `rm_read_i32`, `rm_validate_ptr`.
use perfect_build_radar_touc.Base.{
  ℕ, ◌<◌, ◌≡◌, ◌↔◌, true, false, none, some, arith, inl, inr, length, replicate, Option-cases,
  Bytes, IsByte, u64_mod, le, le-lt_8, signed32, pos, All,
}
use perfect_build_radar_touc.Remote.{Vm, store, fetch, read_ptr, read_i32, validate_ptr}
use perfect_build_radar_touc.Remote.Fetch.{store_full, vm-of_fetch}

-- `rm_validate_ptr` accepts exactly the addresses strictly between 0x1000 and 2 ^ 48; no alignment
-- is asked for.
pub validate_ptr_iff :
    (ptr : ℕ) → (validate_ptr ptr ≡ true) ↔ ((0x1000 < ptr) × (ptr < 0x0001_0000_0000_0000))
unfolding validate_ptr
validate_ptr_iff ptr = ground arith

-- The kernel call hands out bytes.
abbrev pub GivesBytes : Vm → Type 0
GivesBytes vm = (addr n : ℕ) (bs : Bytes) → vm addr n ≡ some bs → All IsByte bs

pub read_ptr-lt : (vm : Vm) (addr : ℕ) → GivesBytes vm → read_ptr vm addr < u64_mod
unfolding read_ptr
read_ptr-lt vm addr g = elim (Option-cases (fetch vm addr 8)) [
  | inl e ↦ ground arith
  | inr (bs, e) ↦
      let (v, l, _) = vm-of_fetch vm addr 8 bs e in ground (arith, le-lt_8 bs l (g addr 8 bs v))
]

-- `rm_read_i32` sets `*ok` exactly when all four bytes came, and after a kernel error the value is
-- 0. After a short read `*ok` is false and the value is that of the bytes that came, with zeros
-- behind them.
pub read_i32_results :
    (vm : Vm) (addr : ℕ)
    → (vm addr 4 ≡ none → read_i32 vm addr ≡ (pos 0, false))
      × ((bs : Bytes)
          → vm addr 4 ≡ some bs
          → length bs ≡ 4
          → read_i32 vm addr ≡ (signed32 (le bs), true))
      × ((bs : Bytes)
          → vm addr 4 ≡ some bs
          → length bs < 4
          → read_i32 vm addr ≡ (signed32 (le (store bs (replicate 4 0))), false))
unfolding read_i32
read_i32_results vm addr =
    (λ e. ground arith, λ bs e l. ground (arith, store_full bs 4 l), λ bs e l. ground arith)
