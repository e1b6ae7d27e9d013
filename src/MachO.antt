-- ===== src/MachO.antt =====
-- What pattern_scan.c and aslr_slide.c take from <mach-o/loader.h> and <string.h>. The layout of
-- the structures belongs to the system's header, so it is the parameter `Loader`: the sizes, the
-- constants, and a decoder for each structure over its bytes.
pub mod Sample
use perfect_build_radar_touc.Base.{
  ℕ, zero, suc, Bool, true, false, not, ◌==◌, if◌then◌else◌, get_or, drop, Bytes,
}

pub record Header : Type 0 where
  pub magic : ℕ
  pub filetype : ℕ
  pub ncmds : ℕ
  pub sizeofcmds : ℕ

pub record Command : Type 0 where
  pub cmd : ℕ
  pub cmdsize : ℕ

pub record Segment : Type 0 where
  pub segname : Bytes
  pub vmaddr : ℕ
  pub vmsize : ℕ

pub record Loader : Type 0 where
  pub header_size : ℕ
  pub command_size : ℕ
  pub segment_size : ℕ
  pub mh_magic_64 : ℕ
  pub mh_execute : ℕ
  pub lc_segment_64 : ℕ
  pub header : Bytes → Header
  pub command : Bytes → Command
  pub segment : Bytes → Segment

-- `strncmp(a, b, n) == 0`; a text ends at its NUL or with its list.
unfoldable pub same_prefix : ℕ → Bytes → Bytes → Bool
same_prefix zero a b = true
same_prefix (suc n) a b =
    let rest = same_prefix n (drop 1 a) (drop 1 b) in
    if not (get_or a 0 0 == get_or b 0 0) then false else if get_or a 0 0 == 0 then true else rest
