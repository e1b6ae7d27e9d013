-- ===== src/Scan/Miss.antt =====
-- Where `pat_scan` can report a match at all.
use perfect_build_radar_touc.Base.{
  ℕ, zero, suc, ◌+◌, ◌-◌, ◌*◌, ◌≤◌, ◌<◌, ◌≡◌, refl, Bool, true, false, ◌⊎◌, inl, inr, some, arith,
  ltb, ltb→lt, if◌then◌else◌, Bytes, add64, sub64, Bool-cases, ◌==◌,
}
use perfect_build_radar_touc.Remote.{Vm}
use perfect_build_radar_touc.Scan.{scan_pages, pat_scan, page_size, max_scan_size}
use perfect_build_radar_touc.Scan.Loop.{
  to_read, page_read, report, scan-done, scan-skip, scan-blind, scan-front,
}

-- A result is 0, or the address whose pattern ends on the first byte of the page `k`; a pattern of
-- two bytes or more does not end in the first page.
abbrev pub Placed : ℕ → ℕ → ℕ → ℕ → ℕ → Type 0
Placed page start size pat_len a =
    (a ≡ 0)
    ⊎ ((k : ℕ) × (k * page < size)
        × (a ≡ sub64 (add64 start (k * page)) (pat_len - 1))
        × (2 ≤ pat_len → 1 ≤ k))

module _ (vm : Vm) (page start size : ℕ) (pattern mask : Bytes) (pat_len : ℕ)
    (some_pat : 1 ≤ pat_len) where
  abbrev IsPlaced : ℕ → Type 0
  IsPlaced = Placed page start size pat_len

  abbrev scan : ℕ → ℕ → Bool → Bytes → ℕ
  scan = scan_pages vm page start size pattern mask pat_len

  abbrev At : ℕ → ℕ → Type 0
  At k offset = (offset ≡ k * page) ⊎ (size ≤ offset)

  next-At :
      (k offset : ℕ)
      → At k offset
      → At (suc k) (offset + to_read vm page start size pattern mask pat_len offset)
  next-At k offset (inr h) = inr (omega arith)
  next-At k offset (inl h) = elim (Bool-cases (ltb (size - offset) page)) [
    | inl e ↦ rw e (inr (omega arith))
    | inr e ↦ rw e (inl (omega arith))
  ]

  front-IsPlaced :
      (k offset : ℕ) (m : Bool) (next : ℕ)
      → At k offset
      → offset < size
      → (2 ≤ pat_len → 1 ≤ k)
      → IsPlaced next
      → IsPlaced (if m then report vm page start size pattern mask pat_len offset else next)
  front-IsPlaced k offset true next (inl e) h later p = inr (k, omega arith, omega arith, later)
  front-IsPlaced k offset true next (inr e) h later p = absurd (omega arith)
  front-IsPlaced k offset false next at h later p = p

  -- One round, given the result for every later state.
  abbrev Rest : ℕ → ℕ → Type 0
  Rest fuel offset =
      (first : Bool) (buf : Bytes)
      → IsPlaced
          (scan fuel (offset + to_read vm page start size pattern mask pat_len offset) first buf)

  compared-IsPlaced :
      (fuel k offset : ℕ) (first : Bool) (buf : Bytes)
      → At k offset
      → offset < size
      → (first ≡ false → 1 ≤ k)
      → Rest fuel offset
      → (page_read vm page start size pattern mask pat_len offset first buf).0 ≡ true
      → IsPlaced (scan (suc fuel) offset first buf)
  compared-IsPlaced fuel k offset false buf at inside later rest e =
      rw
        (scan-front vm page start size pattern mask pat_len fuel offset false buf inside some_pat e
          refl)
        (front-IsPlaced k offset _ _ at inside (λ _. later refl) (rest false _))
  compared-IsPlaced fuel k offset true buf at inside later rest e =
      elim (Bool-cases (ltb 1 pat_len)) [
        | inl two ↦
            rw
              (scan-blind vm page start size pattern mask pat_len fuel offset buf inside
                (ltb→lt _ _ two) e)
              (rest false _)
        | inr one ↦
            let single : pat_len - 1 ≡ 0 = ground arith in
            rw
              (scan-front vm page start size pattern mask pat_len fuel offset true buf inside
                some_pat e single)
              (front-IsPlaced k offset _ _ at inside (λ two. absurd (omega arith)) (rest false _))
      ]

  read-IsPlaced :
      (fuel k offset : ℕ) (first : Bool) (buf : Bytes)
      → At k offset
      → offset < size
      → (first ≡ false → 1 ≤ k)
      → Rest fuel offset
      → IsPlaced (scan (suc fuel) offset first buf)
  read-IsPlaced fuel k offset first buf at inside later rest =
      elim (Bool-cases (page_read vm page start size pattern mask pat_len offset first buf).0) [
        | inr e ↦
            rw
              (scan-skip vm page start size pattern mask pat_len fuel offset first buf inside
                some_pat e)
              (rest true _)
        | inl e ↦ compared-IsPlaced fuel k offset first buf at inside later rest e
      ]

  pub scan_pages-Placed :
      (fuel k offset : ℕ) (first : Bool) (buf : Bytes)
      → At k offset
      → (first ≡ false → 1 ≤ k)
      → IsPlaced (scan fuel offset first buf)
  unfolding scan_pages
  scan_pages-Placed zero k offset first buf at later = inl refl
  scan_pages-Placed (suc fuel) k offset first buf at later = elim (Bool-cases (ltb offset size)) [
    | inr past ↦ inl (
        scan-done vm page start size pattern mask pat_len (suc fuel) offset first buf
          (ground arith))
    | inl inside ↦
        read-IsPlaced fuel k offset first buf at (ltb→lt _ _ inside) later (λ first' buf'.
          scan_pages-Placed fuel (suc k) _ first' buf' (next-At k offset at) (λ _. omega arith))
  ]

-- The size that `pat_scan` scans.
abbrev pub capped : ℕ → ℕ
capped size = if ltb max_scan_size size then max_scan_size else size

-- `rm_read` yields 0 or 1, and the scanner takes that for the number of bytes read. So, whatever
-- the memory holds, a scan of a non-empty pattern reports 0 or an address at which the pattern
-- ends on the first byte of one of the 4096-byte pages that the region is read in; with two bytes
-- or more, not of the first page.
pub pat_scan-Placed :
    (malloc : ℕ → Bool) (vm : Vm) (start size : ℕ) (pattern mask : Bytes) (pat_len : ℕ)
    → 1 ≤ pat_len
    → Placed page_size start
        (capped size)
        pat_len
        (pat_scan malloc vm start size (some pattern) (some mask) pat_len)
unfolding pat_scan
pat_scan-Placed malloc vm start size pattern mask pat_len h =
    let some_pat : (pat_len == 0) ≡ false = ground arith in
    elim (Bool-cases (malloc (pat_len - 1 + page_size))) [
      | inr e ↦ rw (some_pat, e) (inl refl)
      | inl e ↦
          rw (some_pat, e)
            (scan_pages-Placed vm page_size start (capped size) pattern mask pat_len h
              (suc (capped size)) 0 0 true _ (inl (omega arith)) (λ c. cc))
    ]
