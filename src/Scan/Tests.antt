-- ===== src/Scan/Tests.antt =====
-- Runs of the scanner on small memories, and the theorems at inputs that meet their hypotheses.
use perfect_build_radar_touc.Base.{
  ℕ, ◌%◌, ◌≡◌, refl, Bool, true, [], ◌∷◌, some, arith, Bytes, replicate,
}
use perfect_build_radar_touc.MachO.Sample.{small_loader}
use perfect_build_radar_touc.Remote.{Vm}
use perfect_build_radar_touc.Remote.Memory.{window}
use perfect_build_radar_touc.Scan.{match_at, scan_pages, pat_scan, page_size}
use perfect_build_radar_touc.Scan.Miss.{Placed, capped, pat_scan-Placed}
use perfect_build_radar_touc.Scan.Segment.{pat_scan_segment, pat_scan_segment-eq-zero}
use perfect_build_radar_touc.Scan.Sound.{IsHit, pat_scan-IsHit}

abbrev counting : ℕ → ℕ
counting a = a % 256

abbrev counting_vm : Vm
counting_vm a n = some (window counting a n)

abbrev can_malloc : ℕ → Bool
can_malloc n = true

abbrev exact : Bytes
exact = 0xff ∷ 0xff ∷ []

match_at_runs : match_at (5 ∷ 6 ∷ 7 ∷ []) 1 (6 ∷ 9 ∷ []) (0xff ∷ 0 ∷ []) 2 ≡ true
unfolding match_at
match_at_runs = refl

-- With pages of four bytes: 3, 4 ends on the first byte of a page and is found at 3; 2, 3 lies in
-- the first page and is missed; one byte is compared in each page.
scan_pages_runs :
    (scan_pages counting_vm 4 0 10 (3 ∷ 4 ∷ []) exact 2 11 0 true (replicate 5 0) ≡ 3)
    × (scan_pages counting_vm 4 0 10 (2 ∷ 3 ∷ []) exact 2 11 0 true (replicate 5 0) ≡ 0)
    × (scan_pages counting_vm 4 0 10 (8 ∷ []) exact 1 11 0 true (replicate 4 0) ≡ 8)
    × (scan_pages counting_vm 4 0 10 (6 ∷ []) exact 1 11 0 true (replicate 4 0) ≡ 0)
unfolding scan_pages
scan_pages_runs = (refl, refl, refl, refl)

pat_scan-Placed_example :
    Placed page_size 0
      (capped 8192)
      2
      (pat_scan can_malloc counting_vm 0 8192 (some (255 ∷ 0 ∷ [])) (some exact) 2)
pat_scan-Placed_example =
    pat_scan-Placed can_malloc counting_vm 0 8192 (255 ∷ 0 ∷ []) exact 2 (omega arith)

pat_scan-IsHit_example :
    IsHit counting
      (255 ∷ 0 ∷ [])
      exact
      2
      0
      (capped 8192)
      (pat_scan can_malloc counting_vm 0 8192 (some (255 ∷ 0 ∷ [])) (some exact) 2)
pat_scan-IsHit_example =
    pat_scan-IsHit can_malloc counting counting_vm 0 8192 (255 ∷ 0 ∷ []) exact 2 (λ a n bs e. cc)
      (omega arith) (omega arith) (omega arith)

pat_scan_segment-eq-zero_example :
    pat_scan_segment can_malloc counting_vm small_loader 4096
      (some (b'_' ∷ []))
      (some (3 ∷ []))
      (some (0xff ∷ []))
      1
    ≡ 0
pat_scan_segment-eq-zero_example =
    pat_scan_segment-eq-zero can_malloc counting_vm small_loader 4096 (some (b'_' ∷ []))
      (some (3 ∷ [])) (some (0xff ∷ [])) 1 (omega arith)
