-- ===== src/Remote/Text/Cut.antt =====
-- C strings in a chunk of bytes.
use mathlib.Core.List.{append_assoc, append-nil}
use perfect_build_radar_touc.Base.{
  ℕ, ◌≤◌, ◌≡◌, ◌≢◌, refl, Bool, true, false, ◌++◌, [], ◌∷◌, arith, inl, inr, length, ◌==◌,
  if◌then◌else◌, Bool-cases, Bytes, All,
}
use perfect_build_radar_touc.Remote.{copy_chunk}

-- The bytes before the first NUL, or all of them.
unfoldable pub cut : Bytes → Bytes
cut [] = []
cut (c ∷ cs) = if c == 0 then [] else c ∷ cut cs

unfoldable pub has_nul : Bytes → Bool
has_nul [] = false
has_nul (c ∷ cs) = if c == 0 then true else has_nul cs

pub copy_chunk_lem : (out tmp : Bytes) → copy_chunk out tmp ≡ (has_nul tmp, out ++ cut tmp)
unfolding copy_chunk has_nul cut
copy_chunk_lem out [] = ground (arith, append-nil out)
copy_chunk_lem out (c ∷ tmp) =
    ground (
      arith,
      append-nil out,
      copy_chunk_lem (out ++ c ∷ []) tmp,
      append_assoc out (c ∷ []) (cut tmp),
    )

pub cut-append_nul : (xs ys : Bytes) → has_nul xs ≡ true → cut (xs ++ ys) ≡ cut xs
unfolding cut has_nul
cut-append_nul [] ys h = cc
cut-append_nul (x ∷ xs) ys h = ground (arith, cut-append_nul xs ys)

pub cut-append : (xs ys : Bytes) → has_nul xs ≡ false → cut (xs ++ ys) ≡ xs ++ cut ys
unfolding cut has_nul
cut-append [] ys h = refl
cut-append (x ∷ xs) ys h = ground (arith, cut-append xs ys)

pub cut_whole : (xs : Bytes) → has_nul xs ≡ false → cut xs ≡ xs
unfolding cut has_nul
cut_whole [] h = refl
cut_whole (x ∷ xs) h = ground (arith, cut_whole xs)

pub length-cut : (xs : Bytes) → length (cut xs) ≤ length xs
unfolding cut
length-cut [] = omega arith
length-cut (x ∷ xs) = ground (arith, length-cut xs)

abbrev pub NotNul : ℕ → Type 0
NotNul c = c ≢ 0

pub All-cut : (xs : Bytes) → All NotNul (cut xs)
unfolding cut
All-cut [] = tt
All-cut (x ∷ xs) = elim (Bool-cases (x == 0)) [
  | inl e ↦ rw e tt
  | inr e ↦ rw e (ground arith, All-cut xs)
]
