-- ===== src/Json/Room.antt =====
-- A session of the streaming writer on a file with room for the document.
use perfect_build_radar_touc.Base.{
  ℕ, ◌+◌, ◌-◌, ◌≤◌, ◌≡◌, refl, ap, ◌∙◌, inl, inr, Bool, true, false, List, [], ◌∷◌, ◌++◌, some,
  arith, ltb, length, length-append, Bool-cases, codes,
}
use perfect_build_radar_touc.Json.Output.{Stream, fprint, empty_file}
use perfect_build_radar_touc.Json.Text.{class_text, header_text, separated_text, streamed_text}
use perfect_build_radar_touc.Json.Renders.{fprint-Renders, header-Renders, json_write_class-Renders}
use perfect_build_radar_touc.Json.Session.{separator_text, tail_text, session-text}
use perfect_build_radar_touc.Json.{
  Class, Writer, separate, ue4j_writer_open, ue4j_writer_write_class, write_class, write_classes,
  ue4j_writer_close,
}

-- Text of length `n` went from `s` to `t`, and all of it fitted.
unfoldable pub Fitted : Stream → Stream → ℕ → Type 0
Fitted s t n = (t.error ≡ s.error) × (t.room ≡ s.room - n)

separate-Fitted :
    (w : Writer)
    → length (separator_text (ltb 0 w.count)) ≤ w.stream.room
    → Fitted w.stream (separate w) (length (separator_text (ltb 0 w.count)))
unfolding separate separator_text Fitted
separate-Fitted w h = elim (Bool-cases (ltb 0 w.count)) [
  | inl e ↦
      let fits = (fprint-Renders (codes ",\n")).fits w.stream (rw e at h) in rw e (fits.1, fits.2)
  | inr e ↦ rw e (refl, omega arith)
]

-- A class with its separator.
class_length : (started : Bool) → Class → ℕ
class_length started c = length (separator_text started ++ class_text c true)

write_class-Fitted :
    (w : Writer) (c : Class)
    → class_length (ltb 0 w.count) c ≤ w.stream.room
    → Fitted w.stream (write_class w c).stream (class_length (ltb 0 w.count) c)
      × ((write_class w c).count ≡ w.count + 1)
unfolding write_class ue4j_writer_write_class class_length Fitted
write_class-Fitted w c h =
    let both = length-append (separator_text (ltb 0 w.count)) (class_text c true) in
    let first : Fitted w.stream (separate w) (length (separator_text (ltb 0 w.count))) =
      separate-Fitted w (omega (arith, both)) in
    let second =
      (json_write_class-Renders c true).fits (separate w) (omega (arith, both, first.1)) in
    ((second.1 ∙ first.0, omega (arith, second.2, first.1, both)), rw second.0 refl)

write_classes-Fitted :
    (w : Writer) (cs : List Class)
    → length (separated_text (ltb 0 w.count) cs) ≤ w.stream.room
    → Fitted w.stream (write_classes w cs).stream (length (separated_text (ltb 0 w.count) cs))
unfolding write_classes separated_text Fitted class_length separator_text
write_classes-Fitted w [] h = (refl, omega arith)
write_classes-Fitted w (c ∷ cs) h =
    let b = ltb 0 w.count in
    let both = length-append (separator_text b ++ class_text c true) (separated_text true cs) in
    let first = write_class-Fitted w c (omega (arith, both)) in
    let again : ltb 0 (write_class w c).count ≡ true = ground (arith, first.1) in
    let rest : Fitted (write_class w c).stream (write_classes (write_class w c) cs).stream
        (length (separated_text true cs)) =
      rw⁻¹ again
        (write_classes-Fitted (write_class w c) cs (rw again (omega (arith, both, first.0.1)))) in
    (rest.0 ∙ first.0.0, omega (arith, rest.1, first.0.1, both))

close-eq :
    (w : Writer)
    → (fprint tail_text w.stream).1.error ≡ false
    → (ue4j_writer_close true true w).0 ≡ some w.count
unfolding ue4j_writer_close tail_text
close-eq w h = rw h refl

session-fits :
    (room : ℕ) (cs : List Class)
    → length (streamed_text cs) ≤ room
    → (fprint tail_text (write_classes (ue4j_writer_open room) cs).stream).1.error ≡ false
unfolding streamed_text Fitted ue4j_writer_open tail_text
session-fits room cs h =
    let whole = length-append (header_text ++ separated_text false cs) (codes "\n  ]\n}\n") in
    let front = length-append header_text (separated_text false cs) in
    let head = header-Renders.fits (empty_file room) (omega (arith, whole, front)) in
    let body : Fitted (ue4j_writer_open room).stream
        (write_classes (ue4j_writer_open room) cs).stream (length (separated_text false cs)) =
      write_classes-Fitted (ue4j_writer_open room) cs (omega (arith, whole, front, head.2)) in
    let end =
      (fprint-Renders tail_text).fits (write_classes (ue4j_writer_open room) cs).stream
        (omega (arith, whole, front, head.2, body.1)) in
    end.1 ∙ body.0 ∙ head.1

-- A session of the streaming writer over any classes, on an empty file with room for the document
-- and with a flush and a close that succeed, ends with the number of the classes.
pub ue4j_writer_close-fits :
    (room : ℕ) (cs : List Class)
    → length (streamed_text cs) ≤ room
    → (ue4j_writer_close true true (write_classes (ue4j_writer_open room) cs)).0 ≡ some (length cs)
ue4j_writer_close-fits room cs h =
    let fits = session-fits room cs h in
    close-eq (write_classes (ue4j_writer_open room) cs) fits ∙ ap some (session-text room cs fits).0
