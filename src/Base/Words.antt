-- ===== src/Base/Words.antt =====
-- Machine words: `uint64_t` sums, little-endian decoding, and `int32_t` values.
use Prim.Native.Nat.{ℕ, ◌+◌, ◌-◌, ◌*◌, ◌%◌, ◌^◌, ◌<◌}
use mathlib.Core.Path.{◌≡◌}
use mathlib.Core.Bool.{Bool, true, false}
use mathlib.Core.List.{List, [], ◌∷◌}
use native.Mathlib.Omega.{arith}
use perfect_build_radar_touc.Base.Tests.{ltb, if◌then◌else◌}
use perfect_build_radar_touc.Base.Lists.{length}
use perfect_build_radar_touc.Base.Predicates.{All}

abbrev pub Bytes : Type 0
Bytes = List ℕ

abbrev pub IsByte : ℕ → Type 0
IsByte b = b < 256

abbrev pub u64_mod : ℕ
u64_mod = 2 ^ 64

-- `uint64_t` addition and subtraction, for operands below `u64_mod`.
abbrev pub add64 : ℕ → ℕ → ℕ
add64 a b = (a + b) % u64_mod

abbrev pub sub64 : ℕ → ℕ → ℕ
sub64 a b = (a + u64_mod - b) % u64_mod

-- The number that bytes in memory stand for, lowest byte first.
unfoldable pub le : Bytes → ℕ
le [] = 0
le (b ∷ bs) = b + 256 * le bs

pub le-lt_8 : (bs : Bytes) → length bs ≡ 8 → All IsByte bs → le bs < u64_mod
unfolding le
le-lt_8 (a ∷ b ∷ c ∷ d ∷ e ∷ f ∷ g ∷ h ∷ []) l p = omega arith
le-lt_8 [] l p = absurd (omega arith)
le-lt_8 (_ ∷ []) l p = absurd (omega arith)
le-lt_8 (_ ∷ _ ∷ []) l p = absurd (omega arith)
le-lt_8 (_ ∷ _ ∷ _ ∷ []) l p = absurd (omega arith)
le-lt_8 (_ ∷ _ ∷ _ ∷ _ ∷ []) l p = absurd (omega arith)
le-lt_8 (_ ∷ _ ∷ _ ∷ _ ∷ _ ∷ []) l p = absurd (omega arith)
le-lt_8 (_ ∷ _ ∷ _ ∷ _ ∷ _ ∷ _ ∷ []) l p = absurd (omega arith)
le-lt_8 (_ ∷ _ ∷ _ ∷ _ ∷ _ ∷ _ ∷ _ ∷ []) l p = absurd (omega arith)
le-lt_8 (_ ∷ _ ∷ _ ∷ _ ∷ _ ∷ _ ∷ _ ∷ _ ∷ _ ∷ _) l p = absurd (omega arith)

-- `negsuc n` is -(n + 1).
pub data ℤ : Type 0 where
  pos : ℕ → ℤ
  negsuc : ℕ → ℤ

-- The `int32_t` with the bit pattern `w`.
abbrev pub signed32 : ℕ → ℤ
signed32 w = if ltb w (2 ^ 31) then pos w else negsuc (2 ^ 32 - w - 1)

-- `a < b` on integers.
abbrev pub ltb_int : ℤ → ℤ → Bool
ltb_int (pos a) (pos b) = ltb a b
ltb_int (pos a) (negsuc b) = false
ltb_int (negsuc a) (pos b) = true
ltb_int (negsuc a) (negsuc b) = ltb b a

-- The value of a non-negative integer; a negative one counts as 0.
abbrev pub nat_of : ℤ → ℕ
nat_of (pos n) = n
nat_of (negsuc n) = 0
