-- ===== src/Json/Layout.antt =====
-- The documents of the two writers.
use mathlib.Core.Bool.{true≢false}
use mathlib.Core.List.{append_assoc, append-nil}
use perfect_build_radar_touc.Base.{
  ◌≡◌, refl, sym, inl, inr, ℕ, some, ap, ◌∙◌, Bool, true, false, List, [], ◌∷◌, ◌++◌, arith, Bytes,
  ◌==◌, if◌then◌else◌, codes,
}
use perfect_build_radar_touc.Json.Output.{◌>>◌, fprint, empty_file}
use perfect_build_radar_touc.Json.Renders.{
  Renders, ◌⨾◌, fprint-Renders, header-Renders, write_list-Renders, json_write_class-Renders,
}
use perfect_build_radar_touc.Json.Session.{ue4j_writer_close-some}
use perfect_build_radar_touc.Json.{
  Class, header, write_list, json_write_class, comma, ue4j_write, ue4j_writer_open, write_classes,
  ue4j_writer_close,
}
use perfect_build_radar_touc.Base.Decimal.{show_int}
use perfect_build_radar_touc.Json.Text.{
  quoted, property_text, function_text, class_text, all_text, header_text, batch_text,
  separated_text, streamed_text,
}

-- A text without its line ends.
unfoldable pub unlined : Bytes → Bytes
unlined [] = []
unlined (c ∷ s) = if c == 10 then unlined s else c ∷ unlined s

unlined-append : (a b : Bytes) → unlined (a ++ b) ≡ unlined a ++ unlined b
unfolding unlined
unlined-append [] b = refl
unlined-append (c ∷ a) b = ground (arith, unlined-append a b)

-- All of a class but the comma and the line end behind it.
class_body : Class → Bytes
class_body c =
    codes "    {\n"
    ++ codes "      \"name\": "
    ++ quoted c.name
    ++ codes ",\n"
    ++ codes "      \"super\": "
    ++ quoted c.super_name
    ++ codes ",\n"
    ++ (codes "      \"size\": " ++ show_int c.struct_size ++ codes ",\n")
    ++ codes "      \"properties\": [\n"
    ++ all_text property_text c.properties
    ++ codes "      ],\n"
    ++ codes "      \"functions\": [\n"
    ++ all_text function_text c.functions
    ++ codes "      ]\n"

class_text-eq-body :
    (c : Class) (last : Bool)
    → class_text c last ≡ class_body c ++ (codes "    }" ++ comma last ++ codes "\n")
unfolding class_text class_body
class_text-eq-body c last = refl

unlined-class_text :
    (c : Class) → unlined (class_text c false) ≡ unlined (class_text c true) ++ codes ","
unfolding unlined
unlined-class_text c =
    ap unlined (class_text-eq-body c false)
    ∙ unlined-append (class_body c) _
    ∙ sym (append_assoc (unlined (class_body c)) (codes "    }") (codes ","))
    ∙ ap (λ x. x ++ codes ",")
        (sym (ap unlined (class_text-eq-body c true) ∙ unlined-append (class_body c) _))

-- The separator of the streaming writer stands for the comma of the other.
unlined-all_text :
    (cs : List Class) → unlined (all_text class_text cs) ≡ unlined (separated_text false cs)
unfolding all_text separated_text unlined
unlined-all_text [] = refl
unlined-all_text (c ∷ []) = ap unlined (sym (append-nil (class_text c true)))
unlined-all_text (c ∷ d ∷ cs) =
    unlined-append (class_text c false) (all_text class_text (d ∷ cs))
    ∙ ap (λ x. x ++ unlined (all_text class_text (d ∷ cs))) (unlined-class_text c)
    ∙ append_assoc (unlined (class_text c true)) (codes ",") _
    ∙ ap (λ x. unlined (class_text c true) ++ 44 ∷ x) (unlined-all_text (d ∷ cs))
    ∙ sym (unlined-append (class_text c true) (separated_text true (d ∷ cs)))

unlined-batch_text : (cs : List Class) → unlined (batch_text cs) ≡ unlined (streamed_text cs)
unfolding batch_text streamed_text unlined
unlined-batch_text cs =
    ap unlined (append_assoc (header_text ++ all_text class_text cs) (codes "  ]\n") (codes "}\n"))
    ∙ unlined-append (header_text ++ all_text class_text cs) _
    ∙ ap (λ x. x ++ codes "  ]}") (unlined-append header_text (all_text class_text cs))
    ∙ ap (λ x. unlined header_text ++ x ++ codes "  ]}") (unlined-all_text cs)
    ∙ ap (λ x. x ++ codes "  ]}") (sym (unlined-append header_text (separated_text false cs)))
    ∙ sym (unlined-append (header_text ++ separated_text false cs) _)

ue4j_write-text :
    (flushed : Bool) (cs : List Class) (room : ℕ)
    → (ue4j_write flushed cs (empty_file room)).1.error ≡ false
    → (ue4j_write flushed cs (empty_file room)).1.text ≡ batch_text cs
unfolding ue4j_write batch_text
ue4j_write-text flushed cs room h = elim (writes.runs (empty_file room)) [
  | inl bad ↦ absurd (true≢false (sym bad ∙ h))
  | inr good ↦ good.1
]
  where
    writes :
        Renders
          (header
            >> write_list json_write_class cs
            >> fprint (codes "  ]\n")
            >> fprint (codes "}\n"))
          (header_text ++ all_text class_text cs ++ codes "  ]\n" ++ codes "}\n")
    writes =
        header-Renders
        ⨾ write_list-Renders json_write_class class_text json_write_class-Renders cs
        ⨾ fprint-Renders _
        ⨾ fprint-Renders _

-- When `ue4j_write` loses no byte and a session of the streaming writer over the same classes ends
-- with a count, the two files differ in nothing but line ends.
pub ue4j_write-eq-session :
    (flushed ended closed : Bool) (cs : List Class) (room more n : ℕ)
    → (ue4j_write flushed cs (empty_file room)).1.error ≡ false
    → (ue4j_writer_close ended closed (write_classes (ue4j_writer_open more) cs)).0 ≡ some n
    → unlined (ue4j_write flushed cs (empty_file room)).1.text
      ≡ unlined (ue4j_writer_close ended closed (write_classes (ue4j_writer_open more) cs)).1.text
ue4j_write-eq-session flushed ended closed cs room more n h k =
    ap unlined (ue4j_write-text flushed cs room h)
    ∙ unlined-batch_text cs
    ∙ ap unlined (sym (ue4j_writer_close-some more ended closed cs n k).1)
