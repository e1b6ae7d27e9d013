-- ===== src/Scan/Loop.antt =====
-- One round of the loop of `pat_scan`.
use perfect_build_radar_touc.Base.{
  ℕ, zero, suc, ◌+◌, ◌-◌, ◌≤◌, ◌<◌, ◌≡◌, refl, Bool, true, false, ◌++◌, arith, ltb, lt→ltb,
  if◌then◌else◌, take, drop, replicate, Bytes, add64, sub64, Bool-cases, inl, inr,
}
use perfect_build_radar_touc.Remote
use perfect_build_radar_touc.Remote.{Vm}
use perfect_build_radar_touc.Scan.{match_at, search_from, shift, scan_pages}

module _ (vm : Vm) (page start size : ℕ) (pattern mask : Bytes) (pat_len : ℕ) where
  abbrev scan : ℕ → ℕ → Bool → Bytes → ℕ
  scan = scan_pages vm page start size pattern mask pat_len

  abbrev pub overlap : ℕ
  overlap = pat_len - 1

  abbrev pub to_read : ℕ → ℕ
  to_read offset = if ltb (size - offset) page then size - offset else page

  -- What the read of the page at `offset` returns, over the buffer `buf`.
  abbrev pub page_read : ℕ → Bool → Bytes → Bool × Bytes
  page_read offset first buf =
      Remote.read vm (add64 start offset) (drop overlap (shift page overlap first buf))
        (to_read offset)

  -- The buffer after that read.
  abbrev pub filled : ℕ → Bool → Bytes → Bytes
  filled offset first buf =
      take overlap (shift page overlap first buf) ++ (page_read offset first buf).1

  -- The address reported for a match at the front of the buffer.
  abbrev pub report : ℕ → ℕ
  report offset = add64 (sub64 (add64 start offset) overlap) 0

  pub scan-done :
      (fuel offset : ℕ) (first : Bool) (buf : Bytes)
      → size ≤ offset
      → scan fuel offset first buf ≡ 0
  unfolding scan_pages
  scan-done zero offset first buf h = refl
  scan-done (suc fuel) offset first buf h =
      let past : ltb offset size ≡ false = ground arith in rw past

  module _ (fuel offset : ℕ) (first : Bool) (buf : Bytes) (inside : offset < size)
      (some_pat : 1 ≤ pat_len) where
    pub scan-skip :
        (page_read offset first buf).0 ≡ false
        → scan (suc fuel) offset first buf
          ≡ scan fuel
              (offset + to_read offset)
              true
              (replicate overlap 0 ++ drop overlap (filled offset first buf))
    unfolding scan_pages
    scan-skip e = rw (lt→ltb _ _ inside, e)

    pub scan-front :
        (page_read offset first buf).0 ≡ true
        → (if first then overlap else 0) ≡ 0
        → scan (suc fuel) offset first buf ≡ (
            if match_at (filled offset first buf) 0 pattern mask pat_len
            then report offset
            else scan fuel (offset + to_read offset) false (filled offset first buf))
    unfolding scan_pages search_from
    scan-front e f =
        let short : ltb (pat_len - 1 + 1) pat_len ≡ false = ground arith in
        let rounds : pat_len - 1 + 1 - pat_len + 1 - 0 ≡ 1 = omega arith in
        rw (lt→ltb _ _ inside, e, short, f, rounds)
          (elim (Bool-cases (match_at (filled offset first buf) 0 pattern mask pat_len)) [
            | inl m ↦ rw m
            | inr m ↦ rw m
          ])

  -- In the first page, and behind a page that could not be read, nothing is compared.
  pub scan-blind :
      (fuel offset : ℕ) (buf : Bytes)
      → offset < size
      → 2 ≤ pat_len
      → (page_read offset true buf).0 ≡ true
      → scan (suc fuel) offset true buf
        ≡ scan fuel (offset + to_read offset) false (filled offset true buf)
  unfolding scan_pages search_from
  scan-blind fuel offset buf inside h e =
      let short : ltb (pat_len - 1 + 1) pat_len ≡ false = ground arith in
      let rounds : pat_len - 1 + 1 - pat_len + 1 - (pat_len - 1) ≡ 0 = omega arith in
      rw (lt→ltb _ _ inside, e, short, rounds)
