-- ===== src/Scan/Segment.antt =====
-- `pat_scan_segment`: the header and the load commands of a Mach-O image, read and walked.
use perfect_build_radar_touc.Base.{
  ℕ, zero, suc, ◌+◌, ◌%◌, ◌*◌, ◌^◌, ◌≡◌, Bool, true, not, ◌&&◌, ◌||◌, Option, none, some, arith,
  ltb, leb, ◌==◌, if◌then◌else◌, drop, replicate, ◌∷◌, [], ◌≤◌, refl, ◌<◌, Bytes, add64, sub64,
  Bool-cases, lt→ltb, inl, inr,
}
use perfect_build_radar_touc.MachO.{Header, Segment, Loader, same_prefix}
use perfect_build_radar_touc.Remote
use perfect_build_radar_touc.Remote.{Vm}
use perfect_build_radar_touc.Scan.{bool_size, pat_scan}

-- The loop over the load commands in `cmds`, which both passes run: the first segment called
-- `name`. Sums of two `uint32_t` wrap; a sum with a `sizeof` does not.
module _ (l : Loader) (cmds : Bytes) (sizeofcmds : ℕ) (name : Bytes) where
  unfoldable pub find_segment : ℕ → ℕ → Option Segment
  find_segment zero cmd_offset = none
  find_segment (suc n) cmd_offset =
      let lc = l.command (drop cmd_offset cmds) in
      let seg = l.segment (drop cmd_offset cmds) in
      let next = (cmd_offset + lc.cmdsize) % 2 ^ 32 in
      let rest = find_segment n next in
      let is_segment = lc.cmd == l.lc_segment_64 && leb l.segment_size lc.cmdsize in
      if ltb sizeofcmds (cmd_offset + l.command_size)
      then none
      else if ltb lc.cmdsize l.command_size || ltb sizeofcmds next
      then none
      else if is_segment && same_prefix 16 seg.segname name
      then some seg
      else rest

abbrev pub text_name : Bytes
text_name = b'_' ∷ b'_' ∷ b'T' ∷ b'E' ∷ b'X' ∷ b'T' ∷ []

-- The two passes over the commands, and the scan of the segment found.
unfoldable pub scan_commands :
    (ℕ → Bool) → Vm → Loader → ℕ → Header → Bytes → Bytes → Bytes → Bytes → ℕ → ℕ
unfolding find_segment pat_scan
scan_commands malloc vm l image_base hdr cmds name pattern mask pat_len =
    elim (find_segment l cmds hdr.sizeofcmds text_name hdr.ncmds 0) [
      | none ↦ 0
      | some text ↦ elim (find_segment l cmds hdr.sizeofcmds name hdr.ncmds 0) [
        | none ↦ 0
        | some seg ↦
            let slide = sub64 image_base text.vmaddr in
            pat_scan malloc vm (add64 seg.vmaddr slide) seg.vmsize (some pattern) (some mask)
              pat_len
      ]
    ]

unfoldable pub pat_scan_segment :
    (ℕ → Bool) → Vm → Loader → ℕ → Option Bytes → Option Bytes → Option Bytes → ℕ → ℕ
pat_scan_segment malloc vm l image_base (some name) (some pattern) (some mask) pat_len =
    let (ok, raw) = Remote.read vm image_base (replicate l.header_size 0) l.header_size in
    let hdr = l.header raw in
    let cmds_addr = add64 image_base l.header_size in
    let (ok', cmds) = Remote.read vm cmds_addr (replicate hdr.sizeofcmds 0) hdr.sizeofcmds in
    if pat_len == 0
    then 0
    else if ltb (bool_size ok) l.header_size
    then 0
    else if not (hdr.magic == l.mh_magic_64)
    then 0
    else if ltb 512 hdr.ncmds || ltb (4 * 1024 * 1024) hdr.sizeofcmds
    then 0
    else if not (malloc hdr.sizeofcmds)
    then 0
    else if ltb (bool_size ok') hdr.sizeofcmds
    then 0
    else scan_commands malloc vm l image_base hdr cmds name pattern mask pat_len
pat_scan_segment malloc vm l image_base _ _ _ pat_len = 0

bool_size-le-one : (b : Bool) → bool_size b ≤ 1
bool_size-le-one b = ground arith

-- `rm_read` yields 0 or 1, which is below the size of a header that has more than one byte: the
-- segment scan always reports "not found", whatever the target's memory holds.
pub pat_scan_segment-eq-zero :
    (malloc : ℕ → Bool) (vm : Vm) (l : Loader) (image_base : ℕ) (name pattern mask : Option Bytes)
    (pat_len : ℕ)
    → 1 < l.header_size
    → pat_scan_segment malloc vm l image_base name pattern mask pat_len ≡ 0
unfolding pat_scan_segment
pat_scan_segment-eq-zero malloc vm l base (some name) (some pattern) (some mask) pat_len h =
    let ok = (Remote.read vm base (replicate l.header_size 0) l.header_size).0 in
    let short : ltb (bool_size ok) l.header_size ≡ true =
      lt→ltb _ _ (omega (arith, bool_size-le-one ok)) in
    elim (Bool-cases (pat_len == 0)) [ inl e ↦ rw e | inr e ↦ rw (e, short) ]
pat_scan_segment-eq-zero malloc vm l base _ _ _ pat_len h = refl
