-- ===== src/Sdk/Tests.antt =====
-- A run with one class, with and without room on the disk.
use perfect_build_radar_touc.Base.{
  ◌<◌, ◌≡◌, ◌≤◌, arith, refl, true, false, List, [], ◌∷◌, some, none, codes, pos, length,
}
use perfect_build_radar_touc.Json.Output.{put, fputs, fprint, done, ◌>>◌}
use perfect_build_radar_touc.Base.Decimal.{digits_before, show_nat, show_int}
use perfect_build_radar_touc.Json.{
  Class, escape_char, escape_all, json_write_escaped, write_list, json_write_class, header,
  ue4j_writer_open, separate, ue4j_writer_write_class, write_class, write_classes,
  ue4j_writer_close,
}
use perfect_build_radar_touc.Json.Text.{
  streamed_text, header_text, separated_text, class_text, all_text, quoted, escaped,
}
use perfect_build_radar_touc.Sdk.{
  no_memory, World, Files, is_count, settle, stream_classes, with_task, with_log, ue4_sdk_generate,
}
use perfect_build_radar_touc.Sdk.Dump.{ue4_sdk_generate-output, ue4_sdk_generate-succeeds}
use perfect_build_radar_touc.Sdk.Held.{held, held-ue4_sdk_generate}

abbrev one_class : List Class
one_class =
    record {
      name = codes "A";
      super_name = codes "B";
      struct_size = pos 8;
      properties = [];
      functions = [];
    }
    ∷ []

abbrev world : World
world = record {
  log_opens = true;
  task_acquired = true;
  aslr_found = true;
  reflection_ready = true;
  writer_opens = true;
  open_failure = no_memory;
  classes = one_class;
  room = 1000;
  flushed = true;
  closed = true;
  renamed = true;
}

abbrev files : Files
files = record { output = some (codes "old"); pending = none }

generate_runs :
    ((ue4_sdk_generate world files).0.0 ≡ true)
    × ((ue4_sdk_generate (record world { room = 100 }) files).0.0 ≡ false)
    × ((ue4_sdk_generate (record world { room = 100 }) files).0.1.output ≡ some (codes "old"))
    × ((ue4_sdk_generate (record world { classes = [] }) files).0.0 ≡ false)
unfolding ue4_sdk_generate with_log with_task stream_classes settle is_count ue4j_writer_close
    write_classes write_class ue4j_writer_write_class separate ue4j_writer_open header
    json_write_class write_list json_write_escaped escape_all escape_char fputs fprint done put ◌>>◌
    show_int show_nat digits_before
generate_runs = (refl, refl, refl, refl)

ue4_sdk_generate-output_example :
    (0 < length one_class)
    × ((ue4_sdk_generate world files).0.1.output ≡ some (streamed_text one_class))
ue4_sdk_generate-output_example = (ue4_sdk_generate-output world files).0 generate_runs.0

held-ue4_sdk_generate_example : held [] (ue4_sdk_generate world files).1 ≡ some []
held-ue4_sdk_generate_example = held-ue4_sdk_generate world files

streamed_text-fits_one : length (streamed_text one_class) ≤ 1000
unfolding streamed_text header_text separated_text class_text all_text quoted escaped escape_char
    show_int show_nat digits_before
streamed_text-fits_one = omega arith

ue4_sdk_generate-succeeds_example : (ue4_sdk_generate world files).0.0 ≡ true
ue4_sdk_generate-succeeds_example =
    ue4_sdk_generate-succeeds world files refl refl refl refl refl refl refl refl (omega arith)
      streamed_text-fits_one
