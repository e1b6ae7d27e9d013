-- ===== src/Scan/Sound/Match.antt =====
-- `match_at` against the positions that it compares.
use perfect_build_radar_touc.Base.{
  ℕ, zero, suc, ◌+◌, ◌-◌, ◌≤◌, ◌<◌, ◌≡◌, ◌≢◌, ◌∙◌, ap, true, [], ◌∷◌, ◌++◌, arith, ◌==◌, get_or,
  length, drop, Bytes, Bool-cases, inl, inr,
}
use perfect_build_radar_touc.Remote.Memory.{window}
use perfect_build_radar_touc.Scan.{match_from, match_at}

-- Position `j` of the pattern is a wildcard or fits the buffer at `pos`.
abbrev Fits : Bytes → ℕ → Bytes → Bytes → ℕ → Type 0
Fits buf pos pattern mask j = get_or mask j 0 ≢ 0 → get_or buf (pos + j) 0 ≡ get_or pattern j 0

match_from-Fits :
    (buf : Bytes) (pos : ℕ) (pattern mask : Bytes) (i n : ℕ)
    → match_from buf pos pattern mask i n ≡ true
    → (j : ℕ) → i ≤ j
    → j < i + n
    → Fits buf pos pattern mask j
unfolding match_from
match_from-Fits buf pos pattern mask i zero h j lo hi fixed = absurd (omega arith)
match_from-Fits buf pos pattern mask i (suc n) h j lo hi fixed = elim (Bool-cases (i == j)) [
  | inl e ↦ ground arith
  | inr ne ↦
      match_from-Fits buf pos pattern mask (i + 1) n (ground arith) j (ground arith) (omega arith)
        fixed
]

pub match_at-Fits :
    (buf pattern mask : Bytes) (pos pat_len : ℕ)
    → match_at buf pos pattern mask pat_len ≡ true
    → (j : ℕ) → j < pat_len
    → Fits buf pos pattern mask j
unfolding match_at
match_at-Fits buf pattern mask pos pat_len h j lt =
    match_from-Fits buf pos pattern mask 0 pat_len h j (omega arith) (omega arith)

pub get_or-window_append :
    (mem : ℕ → ℕ) (addr n : ℕ) (rest : Bytes) (j : ℕ)
    → j < n
    → get_or (window mem addr n ++ rest) j 0 ≡ mem (addr + j)
get_or-window_append mem addr zero rest j h = absurd (omega arith)
get_or-window_append mem addr (suc n) rest zero h = ap mem (omega arith)
get_or-window_append mem addr (suc n) rest (suc j) h =
    get_or-window_append mem (addr + 1) n rest j (omega arith) ∙ ap mem (omega arith)

pub drop-append_ge :
    (k : ℕ) (xs ys : Bytes) → length xs ≤ k → drop k (xs ++ ys) ≡ drop (k - length xs) ys
drop-append_ge k [] ys h = let e : k - 0 ≡ k = omega arith in rw e
drop-append_ge zero (x ∷ xs) ys h = absurd (omega arith)
drop-append_ge (suc k) (x ∷ xs) ys h =
    let e : suc k - suc (length xs) ≡ k - length xs = omega arith in
    rw e (drop-append_ge k xs ys (omega arith))
