-- ===== src/Sdk/Dump.antt =====
-- What a run leaves in the files.
use mathlib.Core.Bool.{true≢false}
use perfect_build_radar_touc.Base.{
  ℕ, ◌<◌, ◌≡◌, refl, sym, ap, inl, inr, Bool, true, false, not, ◌&&◌, List, Option, none, some,
  arith, lt→ltb, ==_refl, ◌≤◌, Bytes, ltb, if◌then◌else◌, length, Bool-cases,
}
use perfect_build_radar_touc.Json.Text.{streamed_text}
use perfect_build_radar_touc.Json.{ue4j_writer_open, write_classes, ue4j_writer_close}
use perfect_build_radar_touc.Json.Room.{ue4j_writer_close-fits}
use perfect_build_radar_touc.Json.Session.{ue4j_writer_close-some}
use perfect_build_radar_touc.Sdk.{
  World, Files, Event, is_count, settle, stream_classes, with_task, with_log, ue4_sdk_generate,
}

is_count-some : (o : Option ℕ) (n : ℕ) → is_count o n ≡ true → o ≡ some n
unfolding is_count
is_count-some none n h = absurd (true≢false (sym h))
is_count-some (some m) n h = ap some (ground arith)

and-true : (a b c : Bool) → (a && b && c) ≡ true → (a ≡ true) × (b ≡ true)
and-true true true c h = (refl, refl)
and-true true false c h = absurd (true≢false (sym h))
and-true false b c h = absurd (true≢false (sym h))

if-holds : {A : Type 0} (P : A → Type 0) (b : Bool) (x y : A) → P x → P y → P (if b then x else y)
if-holds P true x y hx hy = hx
if-holds P false x y hx hy = hy

-- A success leaves the document of the classes, and a failure the last dump.
unfoldable pub Outcome : World → Files → Bool × Files → Type 0
Outcome w fs r =
    (r.0 ≡ true → (0 < length w.classes) × (r.1.output ≡ some (streamed_text w.classes)))
    × (r.0 ≡ false → r.1.output ≡ fs.output)

failed-Outcome :
    (w : World) (fs left : Files) → left.output ≡ fs.output → Outcome w fs (false, left)
unfolding Outcome
failed-Outcome w fs left e = (λ h. absurd (true≢false (sym h)), λ h. e)

success-Outcome :
    (w : World) (fs : Files) (t : Bytes)
    → 0 < length w.classes
    → t ≡ streamed_text w.classes
    → Outcome w fs (true, record { output = some t; pending = none })
unfolding Outcome
success-Outcome w fs t h e = (λ _. (h, ap some e), λ k. absurd (true≢false k))

settle-Outcome :
    (w : World) (written : Option ℕ) (fs : Files) (t : Bytes)
    → (written ≡ some (length w.classes) → t ≡ streamed_text w.classes)
    → Outcome w fs (settle w written (record fs { pending = some t }))
unfolding settle
settle-Outcome w written fs t ht =
    elim (Bool-cases
      (ltb 0 (length w.classes) && is_count written (length w.classes) && w.renamed)) [
        | inl e ↦
            let both =
              and-true (ltb 0 (length w.classes)) (is_count written (length w.classes)) w.renamed
                e in
            let count = is_count-some written (length w.classes) both.1 in
            let some_class : 0 < length w.classes = ground (arith, both.0) in
            rw e (success-Outcome w fs t some_class (ht count))
        | inr e ↦ rw e (failed-Outcome w fs _ refl)
      ]

stream_classes-Outcome : (w : World) (fs : Files) → Outcome w fs (stream_classes w fs)
unfolding stream_classes
stream_classes-Outcome w fs =
    if-holds (Outcome w fs) w.writer_opens _ _
      (settle-Outcome w _ fs _
        (λ h. (ue4j_writer_close-some w.room w.flushed w.closed w.classes _ h).1))
      (failed-Outcome w fs _ refl)

with_task-Outcome : (w : World) (fs : Files) → Outcome w fs (with_task w fs).0
unfolding with_task
with_task-Outcome w fs =
    let IsOutcome = λ (r : (Bool × Files) × List Event). Outcome w fs r.0 in
    let failed = failed-Outcome w fs fs refl in
    if-holds IsOutcome (not w.aslr_found) _ _ failed
      (if-holds IsOutcome (not w.reflection_ready) _ _ failed (stream_classes-Outcome w fs))

with_log-Outcome : (w : World) (fs : Files) → Outcome w fs (with_log w fs).0
unfolding with_log
with_log-Outcome w fs =
    if-holds (λ (r : (Bool × Files) × List Event). Outcome w fs r.0) w.task_acquired _ _
      (with_task-Outcome w fs) (failed-Outcome w fs fs refl)

-- When `ue4_sdk_generate` succeeds, there are classes and the dump is the whole document of them;
-- when it fails, on any path, the last dump stays as it was.
pub ue4_sdk_generate-output :
    (w : World) (fs : Files)
    → ((ue4_sdk_generate w fs).0.0 ≡ true
        → (0 < length w.classes)
          × ((ue4_sdk_generate w fs).0.1.output ≡ some (streamed_text w.classes)))
      × ((ue4_sdk_generate w fs).0.0 ≡ false → (ue4_sdk_generate w fs).0.1.output ≡ fs.output)
unfolding ue4_sdk_generate Outcome
ue4_sdk_generate-output w fs =
    if-holds (λ (r : (Bool × Files) × List Event). Outcome w fs r.0) w.log_opens _ _
      (with_log-Outcome w fs) (failed-Outcome w fs fs refl)

-- When every call succeeds, there are classes, and the disk has room for their document,
-- `ue4_sdk_generate` succeeds.
pub ue4_sdk_generate-succeeds :
    (w : World) (fs : Files)
    → w.log_opens ≡ true
    → w.task_acquired ≡ true
    → w.aslr_found ≡ true
    → w.reflection_ready ≡ true
    → w.writer_opens ≡ true
    → w.flushed ≡ true
    → w.closed ≡ true
    → w.renamed ≡ true
    → 0 < length w.classes
    → length (streamed_text w.classes) ≤ w.room
    → (ue4_sdk_generate w fs).0.0 ≡ true
unfolding ue4_sdk_generate with_log with_task stream_classes settle is_count
ue4_sdk_generate-succeeds w fs hl ht ha hr ho hf hc hn some_class fits =
    let ended : (ue4j_writer_close w.flushed w.closed
          (write_classes (ue4j_writer_open w.room) w.classes)).0
        ≡ some (length w.classes) =
      rw (hf, hc) (ue4j_writer_close-fits w.room w.classes fits) in
    rw
      (
        hl,
        ht,
        ha,
        hr,
        ho,
        ended,
        hn,
        lt→ltb 0 (length w.classes) some_class,
        ==_refl (length w.classes),
      )
      refl
