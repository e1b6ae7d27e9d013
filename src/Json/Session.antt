-- ===== src/Json/Session.antt =====
-- What a session of the streaming writer leaves in the file when no error is reported.
use mathlib.Core.Bool.{true≢false}
use mathlib.Core.List.{append-nil, append_assoc}
use perfect_build_radar_touc.Base.{
  ℕ, ◌+◌, ◌≡◌, refl, sym, ap, ◌∙◌, ◌⊎◌, inl, inr, Bool, true, false, List, [], ◌∷◌, ◌++◌, some,
  arith, Bytes, ltb, if◌then◌else◌, length, Bool-cases, codes,
}
use perfect_build_radar_touc.Json.Output.{fprint, empty_file}
use perfect_build_radar_touc.Json.Text.{class_text, header_text, separated_text, streamed_text}
use perfect_build_radar_touc.Json.{
  Class, Writer, ue4j_writer_open, ue4j_writer_write_class, write_class, write_classes,
  ue4j_writer_close,
}
use perfect_build_radar_touc.Json.Renders.{
  Renders, fprint-Renders, json_write_class-Renders, header-Renders,
}
use perfect_build_radar_touc.Json.{separate, ue4j_writer_close}

-- A step of the session: the error flag is set, or the writer has gone from `w` to `v` by `k`
-- classes with the text `t`.
unfoldable pub Grown : Writer → Writer → ℕ → Bytes → Type 0
Grown w v k t =
    (v.stream.error ≡ true)
    ⊎ (v.count ≡ w.count + k)
      × (v.stream.text ≡ w.stream.text ++ t)
      × (v.stream.error ≡ w.stream.error)

unfoldable pub separator_text : Bool → Bytes
separator_text started = if started then codes ",\n" else []

separate-keeps : (w : Writer) → w.stream.error ≡ true → (separate w).error ≡ true
unfolding separate
separate-keeps w h = elim (Bool-cases (ltb 0 w.count)) [
  | inl e ↦ rw e ((fprint-Renders (codes ",\n")).keeps w.stream h)
  | inr e ↦ rw e h
]

separate-runs :
    (w : Writer)
    → ((separate w).error ≡ true)
      ⊎ ((separate w).text ≡ w.stream.text ++ separator_text (ltb 0 w.count))
        × ((separate w).error ≡ w.stream.error)
unfolding separate separator_text
separate-runs w = elim (Bool-cases (ltb 0 w.count)) [
  | inl e ↦ rw e (elim ((fprint-Renders (codes ",\n")).runs w.stream) [
    | inl bad ↦ inl bad
    | inr good ↦ inr (good.1, good.2)
  ])
  | inr e ↦ rw e (inr (sym (append-nil w.stream.text), refl))
]

write_class-keeps :
    (w : Writer) (c : Class) → w.stream.error ≡ true → (write_class w c).stream.error ≡ true
unfolding write_class ue4j_writer_write_class
write_class-keeps w c h = (json_write_class-Renders c true).keeps (separate w) (separate-keeps w h)

write_class-Grown :
    (w : Writer) (c : Class)
    → Grown w (write_class w c) 1 (separator_text (ltb 0 w.count) ++ class_text c true)
unfolding Grown write_class ue4j_writer_write_class
write_class-Grown w c = elim ((json_write_class-Renders c true).runs (separate w)) [
  | inl bad ↦ inl bad
  | inr good ↦ elim (separate-runs w) [
    | inl bad ↦ inl (good.2 ∙ bad)
    | inr more ↦ inr (
      rw good.0 refl,
      good.1 ∙ ap (λ x. x ++ class_text c true) more.0 ∙ append_assoc w.stream.text _ _,
      good.2 ∙ more.1,
    )
  ]
]

write_classes-keeps :
    (w : Writer) (cs : List Class)
    → w.stream.error ≡ true
    → (write_classes w cs).stream.error ≡ true
unfolding write_classes
write_classes-keeps w [] h = h
write_classes-keeps w (c ∷ cs) h =
    write_classes-keeps (write_class w c) cs (write_class-keeps w c h)

started : (m n : ℕ) → n ≡ m + 1 → ltb 0 n ≡ true
started m n h = ground arith

write_classes-Grown :
    (w : Writer) (cs : List Class)
    → Grown w (write_classes w cs) (length cs) (separated_text (ltb 0 w.count) cs)
unfolding Grown write_classes separated_text separator_text
write_classes-Grown w [] = inr (omega arith, sym (append-nil w.stream.text), refl)
write_classes-Grown w (c ∷ cs) = elim (write_class-Grown w c) [
  | inl bad ↦ inl (write_classes-keeps (write_class w c) cs bad)
  | inr good ↦ elim (write_classes-Grown (write_class w c) cs) [
    | inl bad ↦ inl bad
    | inr more ↦ inr (
      omega (arith, good.0, more.0),
      more.1
          ∙ ap (λ b. (write_class w c).stream.text ++ separated_text b cs) (started _ _ good.0)
          ∙ ap (λ x. x ++ separated_text true cs) good.1
          ∙ append_assoc w.stream.text _ _,
      more.2 ∙ good.2,
    )
  ]
]

unfoldable pub tail_text : Bytes
tail_text = codes "\n  ]\n}\n"

close-some :
    (flushed closed : Bool) (w : Writer) (n : ℕ)
    → (ue4j_writer_close flushed closed w).0 ≡ some n
    → ((fprint tail_text w.stream).1.error ≡ false) × (w.count ≡ n)
unfolding ue4j_writer_close tail_text
close-some flushed closed w n h = ground arith

open-cases :
    (room : ℕ)
    → ((ue4j_writer_open room).stream.error ≡ true)
      ⊎ ((ue4j_writer_open room).stream.text ≡ header_text)
        × ((ue4j_writer_open room).stream.error ≡ false)
unfolding ue4j_writer_open
open-cases room = elim (header-Renders.runs (empty_file room)) [
  | inl bad ↦ inl bad
  | inr good ↦ inr (good.1, good.2)
]

-- A session without an error.
pub session-text :
    (room : ℕ) (cs : List Class)
    → (fprint tail_text (write_classes (ue4j_writer_open room) cs).stream).1.error ≡ false
    → ((write_classes (ue4j_writer_open room) cs).count ≡ length cs)
      × ((fprint tail_text (write_classes (ue4j_writer_open room) cs).stream).1.text
          ≡ streamed_text cs)
unfolding Grown streamed_text tail_text ue4j_writer_open
session-text room cs h = elim (open-cases room) [
  | inl bad ↦ absurd (
      true≢false
        (sym (tail_writes.keeps _ (write_classes-keeps (ue4j_writer_open room) cs bad)) ∙ h))
  | inr head ↦ elim (write_classes-Grown (ue4j_writer_open room) cs) [
    | inl bad ↦ absurd (true≢false (sym (tail_writes.keeps _ bad) ∙ h))
    | inr body ↦ elim (tail_writes.runs (write_classes (ue4j_writer_open room) cs).stream) [
      | inl bad ↦ absurd (true≢false (sym bad ∙ h))
      | inr end ↦ (
        body.0 ∙ omega arith,
        end.1 ∙ ap (λ x. x ++ tail_text) (body.1 ∙ ap (λ x. x ++ separated_text false cs) head.0),
      )
    ]
  ]
]
  where
    tail_writes : Renders (fprint tail_text) tail_text
    tail_writes = fprint-Renders tail_text

-- If a session of the streaming writer, on an empty file with any room left and for any classes,
-- ends with a count and not with -1, then it is the number of the classes, and the file holds the
-- whole document.
pub ue4j_writer_close-some :
    (room : ℕ) (flushed closed : Bool) (cs : List Class) (n : ℕ)
    → (ue4j_writer_close flushed closed (write_classes (ue4j_writer_open room) cs)).0 ≡ some n
    → (n ≡ length cs)
      × ((ue4j_writer_close flushed closed (write_classes (ue4j_writer_open room) cs)).1.text
          ≡ streamed_text cs)
unfolding ue4j_writer_close tail_text
ue4j_writer_close-some room flushed closed cs n h =
    let ended = close-some flushed closed (write_classes (ue4j_writer_open room) cs) n h in
    let whole = session-text room cs ended.0 in (sym ended.1 ∙ whole.0, whole.1)
