-- ===== src/Base/Decimal.antt =====
-- `%d` and `%u`.
use perfect_build_radar_touc.Base.{
  ℕ, zero, suc, ◌+◌, ◌/◌, ◌%◌, [], ◌∷◌, Bytes, ltb, if◌then◌else◌, ℤ, pos, negsuc,
}

-- The digits of `n` before `rest`; as many rounds as `n` itself are enough.
unfoldable pub digits_before : ℕ → ℕ → Bytes → Bytes
digits_before zero n rest = (48 + n % 10) ∷ rest
digits_before (suc fuel) n rest =
    let more = digits_before fuel (n / 10) ((48 + n % 10) ∷ rest) in
    if ltb n 10 then (48 + n) ∷ rest else more

unfoldable pub show_nat : ℕ → Bytes
show_nat n = digits_before n n []

unfoldable pub show_int : ℤ → Bytes
show_int (pos n) = show_nat n
show_int (negsuc n) = 45 ∷ show_nat (n + 1)
