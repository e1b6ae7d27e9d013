-- ===== src/Sdk/Walk/Tests.antt =====
-- The dump of the sample.
use perfect_build_radar_touc.Base.{◌≡◌, true, some, none, [], codes}
use perfect_build_radar_touc.Reflection.Classes.Sample.{target, ctx, target-objects, sample_walk}
use perfect_build_radar_touc.Sdk.{no_memory, World, Files, stream_classes}
use perfect_build_radar_touc.Sdk.Walk.{dump_target, dump_target-stream}

abbrev world : World
world = record {
  log_opens = true;
  task_acquired = true;
  aslr_found = true;
  reflection_ready = true;
  writer_opens = true;
  open_failure = no_memory;
  classes = [];
  room = 1000;
  flushed = true;
  closed = true;
  renamed = true;
}

abbrev files : Files
files = record { output = some (codes "old"); pending = none }

dump_target-stream_example :
    dump_target target 3 ctx world files
    ≡ some (stream_classes (record world { classes = sample_walk.0.0 }) files)
dump_target-stream_example =
    dump_target-stream target 3 ctx (record { ptr = 0x20000; count = 1 }) sample_walk.0.0
      sample_walk.0.1 world files target-objects sample_walk.1
