-- ===== src/Radar/Publish.antt =====
-- `publish` of radar_reader.c, and the reader of the shared region in source/overlay/
-- radar_overlay.m (`read_snapshot`). The region is its sequence number and the words of the rest,
-- in the order of `radar_shared_t`. The log file is not modelled but for the flags it sets.
pub mod Protocol
pub mod Invariant
pub mod Refine
mod Tests
use perfect_build_radar_touc.Base.{
  ℕ, zero, suc, ◌+◌, ◌%◌, ◌^◌, Bool, true, false, not, ◌&&◌, ◌||◌, List, [], ◌∷◌, ◌++◌, ◌==◌,
  if◌then◌else◌,
}

-- `radar_shared_t` but for `sequence`: the header's fields that `publish` sets, and the words
-- around them.
pub record Frame : Type 0 where
  pub magic : ℕ
  pub version : ℕ
  pub tick : ℕ
  pub prefix : List ℕ
  pub status : ℕ
  pub suffix : List ℕ

abbrev pub words : Frame → List ℕ
words f = f.magic ∷ f.version ∷ f.tick ∷ (f.prefix ++ (f.status ∷ f.suffix))

pub record Shared : Type 0 where
  pub sequence : ℕ
  pub payload : List ℕ

-- The static variables that `publish` uses.
pub record Publisher : Type 0 where
  pub frame : Frame
  pub tick : ℕ
  pub last_status : ℕ
  pub first_live : Bool

abbrev pub radar_magic : ℕ
radar_magic = 0x5244_4152

abbrev pub radar_version : ℕ
radar_version = 4

-- `x | 1`.
unfoldable pub or_one : ℕ → ℕ
or_one x = if x % 2 == 0 then x + 1 else x

-- The frame as it is copied.
unfoldable pub stamp : Publisher → ℕ → Frame
stamp p status = record p.frame {
  magic = radar_magic;
  version = radar_version;
  tick = (p.tick + 1) % 2 ^ 32;
  status = status;
}

-- The odd number stored before the copy, and the even one behind it.
unfoldable pub begin_sequence : ℕ → ℕ
unfolding or_one
begin_sequence sequence = or_one ((sequence + 1) % 2 ^ 32)

-- `logging` says whether the log file is open.
unfoldable pub publish : Bool → Publisher → Shared → ℕ → Publisher × Shared
unfolding stamp begin_sequence
publish logging p shared status = (
  record p {
    frame = stamp p status;
    tick = (p.tick + 1) % 2 ^ 32;
    last_status = status;
    first_live = p.first_live || logging && status == 2;
  },
  record {
    sequence = (begin_sequence shared.sequence + 1) % 2 ^ 32;
    payload = words (stamp p status);
  },
)
