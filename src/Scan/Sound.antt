-- ===== src/Scan/Sound.antt =====
-- The matches that `pat_scan` reports, and the target's memory.
mod Match
mod Buffer
use perfect_build_radar_touc.Base.{
  ℕ, zero, suc, ◌+◌, ◌-◌, ◌*◌, ◌≤◌, ◌<◌, ◌^◌, ◌≡◌, ◌≢◌, refl, sym, ◌∙◌, ap, Bool, true, false, ◌⊎◌,
  inl, inr, Option, none, some, arith, ltb, ltb→lt, if◌then◌else◌, Bytes, add64, sub64, Bool-cases,
  replicate, length-replicate, drop, take, length, get_or, ◌++◌, ◌==◌, not, eq-nil_of_length,
}
use perfect_build_radar_touc.Remote.{Vm}
use perfect_build_radar_touc.Remote.Memory.{window, Backs, length-window}
use perfect_build_radar_touc.Scan.{match_at, shift, scan_pages, pat_scan, page_size, max_scan_size}
use perfect_build_radar_touc.Scan.Loop.{
  to_read, page_read, filled, report, scan-done, scan-skip, scan-blind, scan-front,
}
use perfect_build_radar_touc.Scan.Miss.{capped}
use Match.{match_at-Fits, get_or-window_append}
use Buffer.{BufferInv, skip-BufferInv, next-BufferInv, front-window, take-shift}

-- The pattern lies in memory at `a`: every byte whose mask is not 0 is there.
abbrev pub Occurs : (ℕ → ℕ) → Bytes → Bytes → ℕ → ℕ → Type 0
Occurs mem pattern mask pat_len a =
    (j : ℕ) → j < pat_len → get_or mask j 0 ≢ 0 → mem (a + j) ≡ get_or pattern j 0

-- A result is 0, or the address of an occurrence inside the region.
abbrev pub IsHit : (ℕ → ℕ) → Bytes → Bytes → ℕ → ℕ → ℕ → ℕ → Type 0
IsHit mem pattern mask pat_len start size a =
    (a ≡ 0) ⊎ (Occurs mem pattern mask pat_len a × (start ≤ a) × (a + pat_len ≤ start + size))

module _ (mem : ℕ → ℕ) (vm : Vm) (backs : Backs mem vm) (page start size : ℕ) (pattern mask : Bytes)
    (pat_len : ℕ) (fits : pat_len ≤ page + 1) (some_pat : 1 ≤ pat_len)
    (no_wrap : start + size ≤ 2 ^ 64) where
  abbrev Hit : ℕ → Type 0
  Hit = IsHit mem pattern mask pat_len start size

  abbrev scan : ℕ → ℕ → Bool → Bytes → ℕ
  scan = scan_pages vm page start size pattern mask pat_len

  abbrev Inv : ℕ → Bool → Bytes → Type 0
  Inv = BufferInv mem vm backs page start size pattern mask pat_len fits some_pat no_wrap

  abbrev reads : ℕ → ℕ
  reads = to_read vm page start size pattern mask pat_len

  abbrev buffer : ℕ → Bool → Bytes → Bytes
  buffer = filled vm page start size pattern mask pat_len

  -- One round, given the result for every later state.
  abbrev Rest : ℕ → ℕ → Type 0
  Rest fuel offset =
      (first : Bool) (buf : Bytes)
      → Inv (offset + reads offset) first buf
      → Hit (scan fuel (offset + reads offset) first buf)

  module _ (fuel offset : ℕ) (first : Bool) (buf : Bytes) (inv : Inv offset first buf)
      (inside : offset < size) (rest : Rest fuel offset)
      (good : (page_read vm page start size pattern mask pat_len offset first buf).0 ≡ true) where
    later : Hit (scan fuel (offset + reads offset) false (buffer offset first buf))
    later = rest false _ (
        next-BufferInv mem vm backs page start size pattern mask pat_len fits some_pat no_wrap
          offset first buf inv inside good)

    -- A match at the front of the buffer lies in memory at the zone's address.
    front-Occurs :
        pat_len - 1 ≤ offset
        → take (pat_len - 1) (shift page (pat_len - 1) first buf)
          ≡ window mem (start + offset - (pat_len - 1)) (pat_len - 1)
        → match_at (buffer offset first buf) 0 pattern mask pat_len ≡ true
        → Occurs mem pattern mask pat_len (start + offset - (pat_len - 1))
    front-Occurs h z m j lt fixed =
        let (r, e) =
          front-window mem vm backs page start size pattern mask pat_len fits some_pat no_wrap
            offset first buf inv inside good z (omega arith) in
        sym (get_or-window_append mem (start + offset - (pat_len - 1)) pat_len r j lt)
        ∙ ap (λ t. get_or t j 0) (sym e)
        ∙ ap (λ k. get_or (buffer offset first buf) k 0) (omega arith)
        ∙ match_at-Fits (buffer offset first buf) pattern mask 0 pat_len m j lt fixed

    compared-Hit :
        pat_len - 1 ≤ offset
        → take (pat_len - 1) (shift page (pat_len - 1) first buf)
          ≡ window mem (start + offset - (pat_len - 1)) (pat_len - 1)
        → Hit (
            if match_at (buffer offset first buf) 0 pattern mask pat_len
            then report vm page start size pattern mask pat_len offset
            else scan fuel (offset + reads offset) false (buffer offset first buf))
    compared-Hit h z =
        elim (Bool-cases (match_at (buffer offset first buf) 0 pattern mask pat_len)) [
          | inr e ↦ rw e later
          | inl e ↦
              let a : report vm page start size pattern mask pat_len offset
                  ≡ start + offset - (pat_len - 1) =
                omega arith in
              rw (e, a) (inr (front-Occurs h z e, omega arith, omega arith))
        ]

  read-Hit :
      (fuel offset : ℕ) (first : Bool) (buf : Bytes) (inv : Inv offset first buf)
      (inside : offset < size) (rest : Rest fuel offset)
      (good : (page_read vm page start size pattern mask pat_len offset first buf).0 ≡ true)
      → Hit (scan (suc fuel) offset first buf)
  read-Hit fuel offset false buf inv inside rest good = elim (inv.tail refl) [
    | inl past ↦ absurd (omega arith)
    | inr (h, e) ↦
        rw
          (scan-front vm page start size pattern mask pat_len fuel offset false buf inside some_pat
            good refl)
          (compared-Hit fuel offset false buf inv inside rest good h (
            take-shift page (pat_len - 1) (omega arith) buf _ e
              (length-window mem _ (pat_len - 1))))
  ]
  read-Hit fuel offset true buf inv inside rest good = elim (Bool-cases (ltb 1 pat_len)) [
    | inl two ↦
        rw
          (scan-blind vm page start size pattern mask pat_len fuel offset buf inside
            (ltb→lt _ _ two) good)
          (later fuel offset true buf inv inside rest good)
    | inr one ↦
        let single : pat_len - 1 ≡ 0 = ground arith in
        rw
          (scan-front vm page start size pattern mask pat_len fuel offset true buf inside some_pat
            good single)
          (compared-Hit fuel offset true buf inv inside rest good (omega arith) (no_zone single))
  ]
    where
      no_zone :
          pat_len - 1 ≡ 0
          → take (pat_len - 1) (shift page (pat_len - 1) true buf)
            ≡ window mem (start + offset - (pat_len - 1)) (pat_len - 1)
      no_zone z = rw z

  round-Hit :
      (fuel offset : ℕ) (first : Bool) (buf : Bytes) (inv : Inv offset first buf)
      → offset < size
      → Rest fuel offset
      → Hit (scan (suc fuel) offset first buf)
  round-Hit fuel offset first buf inv inside rest =
      elim (Bool-cases (page_read vm page start size pattern mask pat_len offset first buf).0) [
        | inr e ↦
            rw
              (scan-skip vm page start size pattern mask pat_len fuel offset first buf inside
                some_pat e)
              (rest true _ (
                skip-BufferInv mem vm backs page start size pattern mask pat_len fits some_pat
                  no_wrap offset first buf inv))
        | inl e ↦ read-Hit fuel offset first buf inv inside rest e
      ]

  scan_pages-Hit :
      (fuel offset : ℕ) (first : Bool) (buf : Bytes)
      → Inv offset first buf
      → Hit (scan fuel offset first buf)
  unfolding scan_pages
  scan_pages-Hit zero offset first buf inv = inl refl
  scan_pages-Hit (suc fuel) offset first buf inv = elim (Bool-cases (ltb offset size)) [
    | inr past ↦ inl (
        scan-done vm page start size pattern mask pat_len (suc fuel) offset first buf
          (ground arith))
    | inl inside ↦
        round-Hit fuel offset first buf inv (ltb→lt _ _ inside)
          (λ first' buf' inv'. scan_pages-Hit fuel _ first' buf' inv')
  ]

-- Whatever `pat_scan` reports is 0 or the address of a real occurrence that lies inside the region,
-- if every read that succeeds returns the bytes of one memory, the scanned part does not wrap round
-- the address space, and the pattern is at most one byte longer than a page.
pub pat_scan-IsHit :
    (malloc : ℕ → Bool) (mem : ℕ → ℕ) (vm : Vm) (start size : ℕ) (pattern mask : Bytes)
    (pat_len : ℕ)
    → Backs mem vm
    → 1 ≤ pat_len
    → pat_len ≤ page_size + 1
    → start + capped size ≤ 2 ^ 64
    → IsHit mem pattern mask pat_len start
        (capped size)
        (pat_scan malloc vm start size (some pattern) (some mask) pat_len)
unfolding pat_scan
pat_scan-IsHit malloc mem vm start size pattern mask pat_len backs h fits no_wrap =
    let some_pat : (pat_len == 0) ≡ false = ground arith in
    elim (Bool-cases (malloc (pat_len - 1 + page_size))) [
      | inr e ↦ rw (some_pat, e) (inl refl)
      | inl e ↦
          rw (some_pat, e)
            (scan_pages-Hit mem vm backs page_size start (capped size) pattern mask pat_len fits h
              no_wrap (suc (capped size)) 0 true _
              (record {
                len = length-replicate {A = ℕ} (pat_len - 1 + page_size) 0;
                tail = λ c. cc;
              }))
    ]
