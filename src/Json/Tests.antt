-- ===== src/Json/Tests.antt =====
-- The writers on a class with a property and a function, and the theorems at such inputs.
use perfect_build_radar_touc.Base.{
  ◌≤◌, arith, ◌≡◌, refl, true, false, List, [], ◌∷◌, ◌++◌, some, none, Bytes, All, codes, pos,
  negsuc, length,
}
use perfect_build_radar_touc.Json.Output.{put, fputs, fprint, done, ◌>>◌, empty_file}
use perfect_build_radar_touc.Base.Decimal.{digits_before, show_nat, show_int}
use perfect_build_radar_touc.Json.{
  Class, escape_char, escape_all, json_write_escaped, json_write_property, json_write_function,
  write_list, json_write_class, header, ue4j_write, ue4j_writer_open, separate,
  ue4j_writer_write_class, write_class, write_classes, ue4j_writer_close,
}
use perfect_build_radar_touc.Json.Text.{
  streamed_text, header_text, separated_text, class_text, property_text, function_text, all_text,
  quoted, escaped,
}
use perfect_build_radar_touc.Json.Room.{ue4j_writer_close-fits}
use perfect_build_radar_touc.Json.Session.{ue4j_writer_close-some}
use perfect_build_radar_touc.Json.Escape.{IsPrintable, read_quoted, json_write_escaped-read}
use perfect_build_radar_touc.Json.Layout.{unlined, ue4j_write-eq-session}

show_runs : (show_int (pos 1203) ≡ codes "1203") × (show_int (negsuc 0) ≡ codes "-1")
unfolding show_int show_nat digits_before
show_runs = (refl, refl)

abbrev quote_tab : Bytes
quote_tab = 97 ∷ 34 ∷ 9 ∷ 1 ∷ []

json_write_escaped_runs :
    ((json_write_escaped quote_tab (empty_file 99)).1.text ≡ codes "\"a\\\"\\t\\u0001\"")
    × ((json_write_escaped quote_tab (empty_file 4)).0 ≡ false)
    × ((json_write_escaped quote_tab (empty_file 99)).1.error ≡ false)
unfolding json_write_escaped escape_all escape_char fputs done put ◌>>◌
json_write_escaped_runs = (refl, refl, refl)

json_write_escaped-read_example :
    (t : Bytes) × ((json_write_escaped quote_tab (empty_file 99)).1.text ≡ t)
    × All IsPrintable t
    × ((rest : Bytes) → read_quoted (t ++ rest) ≡ some (quote_tab, rest))
json_write_escaped-read_example =
    json_write_escaped-read quote_tab (empty_file 99) json_write_escaped_runs.2

abbrev actor : Class
actor = record {
  name = codes "A";
  super_name = codes "B";
  struct_size = pos 8;
  properties =
      record {
        name = codes "p";
        type = codes "T";
        offset = pos 1;
        element_size = pos 2;
        array_dim = pos 1;
      }
      ∷ [];
  functions = record { name = codes "f"; flags = 3; parms_size = 4 } ∷ [];
}

abbrev two_actors : List Class
two_actors = actor ∷ actor ∷ []

session_runs :
    (ue4j_writer_close true true (write_classes (ue4j_writer_open 2000) two_actors)).0 ≡ some 2
unfolding ue4j_writer_close write_classes write_class ue4j_writer_write_class separate
    ue4j_writer_open header json_write_class json_write_property json_write_function write_list
    json_write_escaped escape_all escape_char fputs fprint done put ◌>>◌ show_int show_nat
    digits_before
session_runs = refl

session_full :
    (ue4j_writer_close true true (write_classes (ue4j_writer_open 200) two_actors)).0 ≡ none
unfolding ue4j_writer_close write_classes write_class ue4j_writer_write_class separate
    ue4j_writer_open header json_write_class json_write_property json_write_function write_list
    json_write_escaped escape_all escape_char fputs fprint done put ◌>>◌ show_int show_nat
    digits_before
session_full = refl

batch_runs : (ue4j_write true two_actors (empty_file 2000)).1.error ≡ false
unfolding ue4j_write header json_write_class json_write_property json_write_function write_list
    json_write_escaped escape_all escape_char fputs fprint done put ◌>>◌ show_int show_nat
    digits_before
batch_runs = refl

ue4j_writer_close-some_example :
    (2 ≡ length two_actors)
    × ((ue4j_writer_close true true (write_classes (ue4j_writer_open 2000) two_actors)).1.text
        ≡ streamed_text two_actors)
ue4j_writer_close-some_example = ue4j_writer_close-some 2000 true true two_actors 2 session_runs

ue4j_write-eq-session_example :
    unlined (ue4j_write true two_actors (empty_file 2000)).1.text
    ≡ unlined
        (ue4j_writer_close true true (write_classes (ue4j_writer_open 2000) two_actors)).1.text
ue4j_write-eq-session_example =
    ue4j_write-eq-session true true true two_actors 2000 2000 2 batch_runs session_runs

streamed_text-fits : length (streamed_text two_actors) ≤ 2000
unfolding streamed_text header_text separated_text class_text property_text function_text all_text
    quoted escaped escape_char show_int show_nat digits_before
streamed_text-fits = omega arith

ue4j_writer_close-fits_example :
    (ue4j_writer_close true true (write_classes (ue4j_writer_open 2000) two_actors)).0
    ≡ some (length two_actors)
ue4j_writer_close-fits_example = ue4j_writer_close-fits 2000 two_actors streamed_text-fits
