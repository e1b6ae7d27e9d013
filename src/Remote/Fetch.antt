-- ===== src/Remote/Fetch.antt =====
-- A read that succeeds, taken back to the kernel call.
use mathlib.Core.List.{append-nil}
use perfect_build_radar_touc.Base.{
  ℕ, ◌≡◌, ◌≢◌, refl, ◌∙◌, ap, ◌++◌, none, some, arith, inl, inr, length, replicate,
  length-replicate, drop_of_length, ◌==◌, Bool-cases, Option-cases, Bytes,
}
use perfect_build_radar_touc.Remote.{Vm, store, fetch}

-- A full store leaves nothing of the old buffer.
pub store_full : (bs : Bytes) (n : ℕ) → length bs ≡ n → store bs (replicate n 0) ≡ bs
store_full bs n e =
    ap (λ t. bs ++ t)
      (drop_of_length (length bs) (replicate n 0) (omega (arith, length-replicate {A = ℕ} n 0)))
    ∙ append-nil bs

pub fetch-of_vm :
    (vm : Vm) (addr n : ℕ) (bs : Bytes)
    → vm addr n ≡ some bs
    → length bs ≡ n
    → n ≢ 0
    → fetch vm addr n ≡ some bs
unfolding fetch
fetch-of_vm vm addr n bs e l ne = ground (arith, store_full bs n l)

pub fetch-zero : (vm : Vm) (addr : ℕ) → fetch vm addr 0 ≡ none
unfolding fetch
fetch-zero vm addr = refl

-- A successful fetch is a successful kernel call of the whole length.
pub vm-of_fetch :
    (vm : Vm) (addr n : ℕ) (bs : Bytes)
    → fetch vm addr n ≡ some bs
    → (vm addr n ≡ some bs) × (length bs ≡ n) × (n ≢ 0)
unfolding fetch
vm-of_fetch vm addr n bs h = elim (Option-cases (vm addr n)) [
  | inl e ↦ ground arith
  | inr (cs, e) ↦ elim (Bool-cases (length cs == n)) [
    | inl l ↦ ground (arith, store_full cs n)
    | inr l ↦ ground arith
  ]
]
