-- ===== src/Scan.antt =====
-- source/daemon/pattern_scan.c: the byte pattern scanner. `rm_read` returns a C `bool`, which the
-- scanner stores in the `size_t got`. `malloc n` says whether an allocation of `n` bytes succeeds.
-- An array is the list of its bytes, the null pointers of the entry guards are `none`, and 0 is
-- the result for "not found".
pub mod Loop
pub mod Sound
pub mod Segment
pub mod Miss
mod Tests
use perfect_build_radar_touc.Base.{
  ℕ, zero, suc, ◌+◌, ◌-◌, ◌*◌, Bool, true, false, not, ◌&&◌, ◌||◌, ◌++◌, Option, none, some, ltb,
  leb, ◌==◌, if◌then◌else◌, take, drop, get_or, replicate, Bytes, add64, sub64, le,
}
use perfect_build_radar_touc.Remote
use perfect_build_radar_touc.Remote.{Vm}

abbrev pub page_size : ℕ
page_size = 4096

abbrev pub max_scan_size : ℕ
max_scan_size = 256 * 1024 * 1024

-- The rounds `i .. i + n` of the loop of `match_at`.
unfoldable pub match_from : Bytes → ℕ → Bytes → Bytes → ℕ → ℕ → Bool
match_from buf pos pattern mask i zero = true
match_from buf pos pattern mask i (suc n) =
    let rest = match_from buf pos pattern mask (i + 1) n in
    if not (get_or mask i 0 == 0) && not (get_or buf (pos + i) 0 == get_or pattern i 0)
    then false
    else rest

unfoldable pub match_at : Bytes → ℕ → Bytes → Bytes → ℕ → Bool
unfolding match_from
match_at buf pos pattern mask pat_len = match_from buf pos pattern mask 0 pat_len

-- The first of the `n` positions from `i` on at which the pattern matches.
unfoldable pub search_from : Bytes → Bytes → Bytes → ℕ → ℕ → ℕ → Option ℕ
unfolding match_at
search_from buf pattern mask pat_len i zero = none
search_from buf pattern mask pat_len i (suc n) =
    let rest = search_from buf pattern mask pat_len (i + 1) n in
    if match_at buf i pattern mask pat_len then some i else rest

-- A C `bool` read as a number.
abbrev pub bool_size : Bool → ℕ
bool_size b = if b then 1 else 0

-- The buffer between the shift of the overlap zone and the read.
unfoldable pub shift : ℕ → ℕ → Bool → Bytes → Bytes
shift page overlap first buf =
    if not first && not (overlap == 0)
    then take overlap (drop page buf) ++ drop overlap buf
    else buf

-- The loop of `pat_scan`, with the page size as an argument; the fuel counts the pages.
module _ (vm : Vm) (page start size : ℕ) (pattern mask : Bytes) (pat_len : ℕ) where
  unfoldable pub scan_pages : ℕ → ℕ → Bool → Bytes → ℕ
  unfolding search_from shift Remote.read
  scan_pages zero offset first buf = 0
  scan_pages (suc fuel) offset first buf =
      let overlap = pat_len - 1 in
      let remaining = size - offset in
      let to_read = if ltb remaining page then remaining else page in
      let shifted = shift page overlap first buf in
      let (ok, page_dst) = Remote.read vm (add64 start offset) (drop overlap shifted) to_read in
      let buf' = take overlap shifted ++ page_dst in
      let got = bool_size ok in
      let skip =
        scan_pages fuel (offset + to_read) true (replicate overlap 0 ++ drop overlap buf') in
      let next = scan_pages fuel (offset + to_read) false buf' in
      let search_start = if first then overlap else 0 in
      let usable = overlap + got in
      let search_end = usable - pat_len in
      let found =
        search_from buf' pattern mask pat_len search_start (search_end + 1 - search_start) in
      let searched : ℕ = elim found [
        | none ↦ next
        | some i ↦ add64 (sub64 (add64 start offset) overlap) i
      ] in
      if ltb offset size
      then (if got == 0 then skip else if ltb usable pat_len then next else searched)
      else 0

-- Every page moves the offset on, so one round for each byte is enough.
unfoldable pub pat_scan : (ℕ → Bool) → Vm → ℕ → ℕ → Option Bytes → Option Bytes → ℕ → ℕ
unfolding scan_pages
pat_scan malloc vm start size none mask pat_len = 0
pat_scan malloc vm start size (some pattern) none pat_len = 0
pat_scan malloc vm start size (some pattern) (some mask) pat_len =
    let capped = if ltb max_scan_size size then max_scan_size else size in
    let buf_alloc = pat_len - 1 + page_size in
    if pat_len == 0
    then 0
    else if not (malloc buf_alloc)
    then 0
    else scan_pages vm page_size start capped pattern mask pat_len (suc capped) 0 true
        (replicate buf_alloc 0)
