-- ===== src/Remote/Memory.antt =====
-- A memory that the kernel call reads from, for the properties that compare two readings.
use perfect_build_radar_touc.Base.{
  ℕ, zero, suc, ◌+◌, ◌≤◌, ◌≡◌, refl, ap, [], ◌∷◌, ◌++◌, Option, some, arith, length, drop, Bytes,
}

-- The `n` bytes from `addr` on.
abbrev pub window : (ℕ → ℕ) → ℕ → ℕ → Bytes
window mem addr zero = []
window mem addr (suc n) = mem addr ∷ window mem (addr + 1) n

-- Every read that succeeds returns the bytes of `mem`.
abbrev pub Backs : (ℕ → ℕ) → (ℕ → ℕ → Option Bytes) → Type 0
Backs mem vm = (addr n : ℕ) (bs : Bytes) → vm addr n ≡ some bs → bs ≡ window mem addr n

-- Every read inside `[lo, hi)` succeeds, with the bytes of `mem`.
abbrev pub Maps : (ℕ → ℕ) → (ℕ → ℕ → Option Bytes) → ℕ → ℕ → Type 0
Maps mem vm lo hi = (addr n : ℕ) → lo ≤ addr → addr + n ≤ hi → vm addr n ≡ some (window mem addr n)

pub length-window : (mem : ℕ → ℕ) (addr n : ℕ) → length (window mem addr n) ≡ n
length-window mem addr zero = refl
length-window mem addr (suc n) = ap suc (length-window mem (addr + 1) n)

pub window-cong : (mem : ℕ → ℕ) {a b : ℕ} (n : ℕ) → a ≡ b → window mem a n ≡ window mem b n
window-cong mem n e = ap (λ k. window mem k n) e

pub window-append :
    (mem : ℕ → ℕ) (addr m n : ℕ)
    → window mem addr (m + n) ≡ window mem addr m ++ window mem (addr + m) n
window-append mem addr zero n =
    let e : zero + n ≡ n = omega arith in
    let e' : addr ≡ addr + 0 = omega arith in rw e (window-cong mem n e')
window-append mem addr (suc m) n =
    let e : suc m + n ≡ suc (m + n) = omega arith in
    let e' : addr + 1 + m ≡ addr + suc m = omega arith in
    rw e (rw (window-append mem (addr + 1) m n) (rw e'))

pub drop-window :
    (mem : ℕ → ℕ) (addr k n : ℕ) → drop k (window mem addr (k + n)) ≡ window mem (addr + k) n
drop-window mem addr zero n =
    let e : zero + n ≡ n = omega arith in
    let e' : addr ≡ addr + 0 = omega arith in rw e (window-cong mem n e')
drop-window mem addr (suc k) n =
    let e : suc k + n ≡ suc (k + n) = omega arith in
    let e' : addr + 1 + k ≡ addr + suc k = omega arith in
    rw e (rw (drop-window mem (addr + 1) k n) (rw e'))
