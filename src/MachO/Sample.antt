-- ===== src/MachO/Sample.antt =====
-- One layout that fits the parameter `Loader`, for the tests.
use perfect_build_radar_touc.Base.{take, drop, le, ◌%◌, u64_mod}
use perfect_build_radar_touc.MachO.{Loader}

-- A layout with a header of 32 bytes.
abbrev pub small_loader : Loader
small_loader = record {
  header_size = 32;
  command_size = 8;
  segment_size = 72;
  mh_magic_64 = 0xfeed_facf;
  mh_execute = 2;
  lc_segment_64 = 0x19;
  header = λ bs. record {
    magic = le (take 4 bs);
    filetype = le (take 4 (drop 12 bs));
    ncmds = le (take 4 (drop 16 bs));
    sizeofcmds = le (take 4 (drop 20 bs));
  };
  command = λ bs. record { cmd = le (take 4 bs); cmdsize = le (take 4 (drop 4 bs)) };
  segment = λ bs. record {
    segname = take 16 (drop 8 bs);
    vmaddr = le (take 8 (drop 24 bs)) % u64_mod;
    vmsize = le (take 8 (drop 32 bs));
  };
}
