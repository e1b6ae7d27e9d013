-- ===== src/Lib.antt =====
-- A model of the daemon of this repository, which reads a game's memory from another process and
-- publishes what it finds to an overlay, with the theorems about it.
--
-- The parts, and how they work together:
-- - Remote: source/daemon/remote_memory.c. Every read of the target goes through it (`rm_read` is
--   `Remote.read`, the other `rm_` functions drop the prefix). The target's address space is a
--   function `Vm` from an address and a length to the bytes that the kernel copies, or nothing when
--   the call fails. It stands for the kernel and does not change during one call.
-- - MachO: what the code takes from the system's mach-o/loader.h, as a record `Loader` of sizes,
--   constants and decoders that the functions get as an argument. `small_loader` is an instance.
-- - Scan: source/daemon/pattern_scan.c, with `malloc` as an argument.
-- - Aslr: source/daemon/aslr_slide.c. The result of `task_info` is an argument.
-- - Config: source/daemon/config_address.h.
-- - Radar: source/daemon/radar_reader.c. Items has the name tables of the items and vehicles, Meta
--   the two metadata caches, Publish the frames of the shared region, with the steps of the writer
--   and of the reader in source/overlay/radar_overlay.m (`read_snapshot`) interleaved;
--   Text reads the target's UTF-16 strings, World finds the world and its controller, Classes sorts
--   the actors of a level by the names of their classes, Tick has
--   `radar_tick` from the controller on, with the loops over the characters, vehicles and items, on
--   floating-point operations that are an argument.
-- - Json: source/daemon/ue4_json.c. Output has the calls of stdio, on a file with limited room.
-- - Sdk: `ue4_sdk_generate` of source/daemon/ue4_sdk.c, which writes classes by the streaming writer
--   of Json, with the files that it leaves and the calls that take, use and give back its log, the
--   task port, the reflection context and the writer.
-- - Reflection: source/daemon/ue4_reflection.c, over one snapshot of the target per call. Names
--   resolves name indices with the name cache (`ue4r_resolve_name` is `resolve_name`, and so on
--   without the prefix), Path builds path names, Members reads the properties and functions of a
--   class, Objects the object array and the meta-class, Classes walks over the classes, as a list
--   and with a callback, Instance searches for an object of a class in steps, Init makes the
--   context. Sdk.Walk joins the walk with the writer.
-- - Daemon: `write_all`, `run_radar_loop` and the loop of `main` of source/daemon/main.c.
-- - Base: numbers, lists, words and texts that the others share.
--
-- Bounds and fuel: the page loop of `pat_scan` and the chunk loop of `rm_read_string` run on as many
-- rounds as there are bytes to read, which is enough since every round reads at least one; the loops
-- over load commands and images run on the counts of the source. `uint64_t` sums wrap at 2 ^ 64.
-- The walk over the properties of a class runs on fuel and has no result without enough, since its
-- loop has no bound of its own; a chain of `n` members takes `n + 1` rounds. The walk over the
-- objects has a round for each batch of 512, and one more, which is enough
-- (`Reflection.Classes.Ends.walk_batches-rounds`). The other loops of the reflection run on the caps
-- of the source.
-- The sequence number of the shared region wraps at 2 ^ 32, and the reader's two loads are taken to
-- lie less than one turn of it apart. The accesses to the region take effect in the order of the
-- program; what a processor may reorder around the first store of the number is not modelled.
--
-- Not modelled: the freeing of memory in source/daemon/ue4_reflection.c and the failures of `calloc`
-- in its walks (that of `ue4r_init` is), `radar_init` and `radar_destroy`, the clock and the log line
-- of `radar_tick`, `parse_config` and `read_config`, what `main` starts before it reads its
-- arguments, the app, the drawing and touch code of the overlay, the plugin, and the log files.
pub mod Base
pub mod Remote
pub mod MachO
pub mod Scan
pub mod Config
pub mod Aslr
pub mod Radar
pub mod Json
pub mod Sdk
pub mod Daemon
pub mod Reflection
