-- ===== src/Json.antt =====
-- The JSON writers of source/daemon/ue4_json.c. A `FILE *` is the text that has reached the file
-- and the room that is left on the disk; what finds no room is lost and sets the error flag. The
-- linked lists of ue4_reflection.h are lists, and the pointers are not null.
pub mod Output
pub mod Text
pub mod Renders
pub mod Session
pub mod Room
pub mod Escape
pub mod Layout
mod Tests
use perfect_build_radar_touc.Base.{
  ℕ, ◌+◌, ◌/◌, ◌%◌, Bool, true, false, not, ◌&&◌, ◌||◌, List, [], ◌∷◌, ◌++◌, Option, none, some,
  Bytes, ltb, ◌==◌, if◌then◌else◌, ℤ, codes,
}
use perfect_build_radar_touc.Json.Output.{Stream, Write, fputs, fprint, done, ◌>>◌, empty_file}
use perfect_build_radar_touc.Base.Decimal.{show_int, show_nat}

-- `ue4_property_t`.
pub record Property : Type 0 where
  pub name : Bytes
  pub type : Bytes
  pub offset : ℤ
  pub element_size : ℤ
  pub array_dim : ℤ

-- `ue4_function_t`.
pub record Function : Type 0 where
  pub name : Bytes
  pub flags : ℕ
  pub parms_size : ℕ

-- `ue4_class_t`.
pub record Class : Type 0 where
  pub name : Bytes
  pub super_name : Bytes
  pub struct_size : ℤ
  pub properties : List Property
  pub functions : List Function

-- A digit of `%04x`.
abbrev pub hex_digit : ℕ → ℕ
hex_digit d = if ltb d 10 then 48 + d else 87 + d

-- The cases of the `switch` and its default.
unfoldable pub escape_char : ℕ → Bytes
escape_char c =
    if c == 34
    then 92 ∷ 34 ∷ []
    else if c == 92
    then 92 ∷ 92 ∷ []
    else if c == 8
    then 92 ∷ 98 ∷ []
    else if c == 12
    then 92 ∷ 102 ∷ []
    else if c == 10
    then 92 ∷ 110 ∷ []
    else if c == 13
    then 92 ∷ 114 ∷ []
    else if c == 9
    then 92 ∷ 116 ∷ []
    else if ltb c 32
    then 92 ∷ 117 ∷ 48 ∷ 48 ∷ hex_digit (c / 16) ∷ hex_digit (c % 16) ∷ []
    else c ∷ []

unfoldable pub escape_all : Bytes → Write
escape_all [] = done
escape_all (c ∷ s) = fputs (escape_char c) >> escape_all s

unfoldable pub json_write_escaped : Bytes → Write
json_write_escaped s = fputs (codes "\"") >> escape_all s >> fputs (codes "\"")

-- The comma behind every element but the last.
abbrev pub comma : Bool → Bytes
comma last = if last then [] else codes ","

unfoldable pub json_write_property : Property → Bool → Write
json_write_property p last =
    fprint (codes "        { ")
    >> fprint (codes "\"name\": ")
    >> json_write_escaped p.name
    >> fprint (codes ", \"type\": ")
    >> json_write_escaped p.type
    >> fprint (codes ", \"offset\": " ++ show_int p.offset)
    >> fprint (codes ", \"element_size\": " ++ show_int p.element_size)
    >> fprint (codes ", \"array_dim\": " ++ show_int p.array_dim)
    >> fprint (codes " }" ++ comma last ++ codes "\n")

unfoldable pub json_write_function : Function → Bool → Write
json_write_function f last =
    fprint (codes "        { ")
    >> fprint (codes "\"name\": ")
    >> json_write_escaped f.name
    >> fprint (codes ", \"flags\": " ++ show_nat f.flags)
    >> fprint (codes ", \"parameter_size\": " ++ show_nat f.parms_size)
    >> fprint (codes " }" ++ comma last ++ codes "\n")

-- The loops over a list: `last` tells the element without a next one.
unfoldable pub write_list : {A : Type 0} → (A → Bool → Write) → List A → Write
write_list write [] = done
write_list write (x ∷ []) = write x true
write_list write (x ∷ y ∷ xs) = write x false >> write_list write (y ∷ xs)

unfoldable pub json_write_class : Class → Bool → Write
json_write_class c last =
    fprint (codes "    {\n")
    >> fprint (codes "      \"name\": ")
    >> json_write_escaped c.name
    >> fprint (codes ",\n")
    >> fprint (codes "      \"super\": ")
    >> json_write_escaped c.super_name
    >> fprint (codes ",\n")
    >> fprint (codes "      \"size\": " ++ show_int c.struct_size ++ codes ",\n")
    >> fprint (codes "      \"properties\": [\n")
    >> write_list json_write_property c.properties
    >> fprint (codes "      ],\n")
    >> fprint (codes "      \"functions\": [\n")
    >> write_list json_write_function c.functions
    >> fprint (codes "      ]\n")
    >> fprint (codes "    }" ++ comma last ++ codes "\n")

unfoldable pub header : Write
header =
    fprint (codes "{\n")
    >> fprint (codes "  \"format\": \"ue4-reflection-schema-v1\",\n")
    >> fprint (codes "  \"scope\": \"type metadata only; no object values\",\n")
    >> fprint (codes "  \"classes\": [\n")

-- The result of `ue4j_write` on an opened file, where `flushed` is the result of `fflush`.
unfoldable pub ue4j_write : (flushed : Bool) → List Class → Stream → Bool × Stream
ue4j_write flushed classes s =
    let run =
      (header
          >> write_list json_write_class classes
          >> fprint (codes "  ]\n")
          >> fprint (codes "}\n"))
        s in
    (run.0 && flushed, run.1)

-- `ue4j_writer_t`: the stream and the number of the classes written.
pub record Writer : Type 0 where
  pub stream : Stream
  pub count : ℕ

-- `ue4j_writer_open` on a file that could be opened, with `room` left for it.
unfoldable pub ue4j_writer_open : (room : ℕ) → Writer
ue4j_writer_open room = record { stream = (header (empty_file room)).1; count = 0 }

-- The separator before every class but the first.
unfoldable pub separate : Writer → Stream
separate w = if ltb 0 w.count then (fprint (codes ",\n") w.stream).1 else w.stream

unfoldable pub ue4j_writer_write_class : Writer → Class → Bool × Writer
ue4j_writer_write_class w c =
    let res = json_write_class c true (separate w) in
    (res.0, record w { stream = res.1; count = if res.0 then w.count + 1 else w.count })

-- The callback of `ue4r_iterate_classes` drops the result.
unfoldable pub write_class : Writer → Class → Writer
write_class w c = (ue4j_writer_write_class w c).1

unfoldable pub write_classes : Writer → List Class → Writer
write_classes w [] = w
write_classes w (c ∷ cs) = write_classes (write_class w c) cs

-- The count, or nothing for -1, and the file that is left. `flushed` and `closed` are the results
-- of `fflush` and `fclose`.
unfoldable pub ue4j_writer_close : (flushed closed : Bool) → Writer → Option ℕ × Stream
ue4j_writer_close flushed closed w =
    let s = (fprint (codes "\n  ]\n}\n") w.stream).1 in
    (if flushed && not s.error && closed then some w.count else none, s)
