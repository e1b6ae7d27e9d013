-- ===== src/Json/Text.antt =====
-- The texts that the writers are to write.
use perfect_build_radar_touc.Base.{
  Bool, true, false, List, [], ◌∷◌, ◌++◌, Bytes, codes, if◌then◌else◌,
}
use perfect_build_radar_touc.Json.{Property, Function, Class, escape_char, comma}
use perfect_build_radar_touc.Base.Decimal.{show_int, show_nat}

unfoldable pub escaped : Bytes → Bytes
escaped [] = []
escaped (c ∷ s) = escape_char c ++ escaped s

unfoldable pub quoted : Bytes → Bytes
quoted s = codes "\"" ++ escaped s ++ codes "\""

unfoldable pub property_text : Property → Bool → Bytes
property_text p last =
    codes "        { "
    ++ codes "\"name\": "
    ++ quoted p.name
    ++ codes ", \"type\": "
    ++ quoted p.type
    ++ (codes ", \"offset\": " ++ show_int p.offset)
    ++ (codes ", \"element_size\": " ++ show_int p.element_size)
    ++ (codes ", \"array_dim\": " ++ show_int p.array_dim)
    ++ (codes " }" ++ comma last ++ codes "\n")

unfoldable pub function_text : Function → Bool → Bytes
function_text f last =
    codes "        { "
    ++ codes "\"name\": "
    ++ quoted f.name
    ++ (codes ", \"flags\": " ++ show_nat f.flags)
    ++ (codes ", \"parameter_size\": " ++ show_nat f.parms_size)
    ++ (codes " }" ++ comma last ++ codes "\n")

unfoldable pub all_text : {A : Type 0} → (A → Bool → Bytes) → List A → Bytes
all_text text [] = []
all_text text (x ∷ []) = text x true
all_text text (x ∷ y ∷ xs) = text x false ++ all_text text (y ∷ xs)

unfoldable pub class_text : Class → Bool → Bytes
class_text c last =
    codes "    {\n"
    ++ codes "      \"name\": "
    ++ quoted c.name
    ++ codes ",\n"
    ++ codes "      \"super\": "
    ++ quoted c.super_name
    ++ codes ",\n"
    ++ (codes "      \"size\": " ++ show_int c.struct_size ++ codes ",\n")
    ++ codes "      \"properties\": [\n"
    ++ all_text property_text c.properties
    ++ codes "      ],\n"
    ++ codes "      \"functions\": [\n"
    ++ all_text function_text c.functions
    ++ codes "      ]\n"
    ++ (codes "    }" ++ comma last ++ codes "\n")

unfoldable pub header_text : Bytes
header_text =
    codes "{\n"
    ++ codes "  \"format\": \"ue4-reflection-schema-v1\",\n"
    ++ codes "  \"scope\": \"type metadata only; no object values\",\n"
    ++ codes "  \"classes\": [\n"

-- The document of `ue4j_write`.
unfoldable pub batch_text : List Class → Bytes
batch_text classes = header_text ++ all_text class_text classes ++ codes "  ]\n" ++ codes "}\n"

-- The classes of the streaming writer: each ends like a last one, with the separator before all
-- but the first.
unfoldable pub separated_text : (started : Bool) → List Class → Bytes
separated_text started [] = []
separated_text started (c ∷ cs) =
    (if started then codes ",\n" else []) ++ class_text c true ++ separated_text true cs

unfoldable pub streamed_text : List Class → Bytes
streamed_text classes = header_text ++ separated_text false classes ++ codes "\n  ]\n}\n"
