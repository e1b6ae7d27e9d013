-- ===== src/Base/Text.antt =====
-- C texts as lists of bytes: literals, `strstr`, and the cut that `snprintf` and `strncpy` make.
use Prim.Native.Nat.{ℕ, ◌-◌}
use Prim.Native.Char.{code}
use Prim.Native.String.{String}
use mathlib.Core.Path.{◌≡◌, refl}
use mathlib.Core.Bool.{Bool, true, false, ◌&&◌, ◌||◌}
use mathlib.Core.List.{[], ◌∷◌, ◌++◌}
use native.Mathlib.Omega.{arith}
use perfect_build_radar_touc.Base.Tests.{◌==◌}
use perfect_build_radar_touc.Base.Lists.{take}
use perfect_build_radar_touc.Base.Words.{Bytes}

-- The bytes of an ASCII literal.
abbrev pub codes : String → Bytes
codes String.[] = []
codes (String.◌∷◌ c s) = code c ∷ codes s

unfoldable pub is_prefix : Bytes → Bytes → Bool
is_prefix [] hay = true
is_prefix (c ∷ needle) [] = false
is_prefix (c ∷ needle) (d ∷ hay) = c == d && is_prefix needle hay

-- `strstr(hay, needle) != NULL`.
unfoldable pub contains : Bytes → Bytes → Bool
unfolding is_prefix
contains [] needle = is_prefix needle []
contains (c ∷ hay) needle = is_prefix needle (c ∷ hay) || contains hay needle

-- `strcmp(a, b) == 0`.
unfoldable pub same_text : Bytes → Bytes → Bool
same_text [] [] = true
same_text (x ∷ a) (y ∷ b) = x == y && same_text a b
same_text _ _ = false

-- What `snprintf(buf, size, ...)` leaves in a buffer of `size` bytes.
abbrev pub fit : ℕ → Bytes → Bytes
fit size text = take (size - 1) text

is_prefix-shorter : (p q hay : Bytes) → is_prefix (p ++ q) hay ≡ true → is_prefix p hay ≡ true
unfolding is_prefix
is_prefix-shorter [] q hay h = refl
is_prefix-shorter (c ∷ p) q [] h = cc
is_prefix-shorter (c ∷ p) q (d ∷ hay) h = ground (arith, is_prefix-shorter p q hay)

-- A text that contains a needle contains its beginnings.
pub contains-shorter : (hay p q : Bytes) → contains hay (p ++ q) ≡ true → contains hay p ≡ true
unfolding contains
contains-shorter [] p q h = is_prefix-shorter p q [] h
contains-shorter (c ∷ hay) p q h =
    ground (arith, is_prefix-shorter p q (c ∷ hay), contains-shorter hay p q)
