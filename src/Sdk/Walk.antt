-- ===== src/Sdk/Walk.antt =====
-- The part of `ue4_sdk_generate` from the open of the writer to the label `out_ctx`, with the walk
-- over the target that hands the classes to the writer.
mod Tests
use perfect_build_radar_touc.Base.{
  ℕ, ◌+◌, ◌≡◌, refl, sym, ap, ◌∙◌, Bool, true, false, ◌&&◌, List, [], ◌∷◌, Option, none, some,
  arith, Bytes, ltb, if◌then◌else◌, length, ℤ, pos, negsuc,
}
use perfect_build_radar_touc.Remote.{Vm}
use perfect_build_radar_touc.Json.{
  Class, Writer, ue4j_writer_open, write_class, write_classes, ue4j_writer_close,
}
use perfect_build_radar_touc.Reflection.{Ctx}
use perfect_build_radar_touc.Reflection.Objects.{Objects, get_objects_info}
use perfect_build_radar_touc.Reflection.Classes.{walk_classes, iterate_classes}
use perfect_build_radar_touc.Reflection.Classes.Stream.{called, Streams, iterate_classes-Streams}
use perfect_build_radar_touc.Sdk.{World, Files, is_count, settle, stream_classes}

-- The result and the files, from the number of classes and what the writer gives.
unfoldable pub settle_count : (renamed : Bool) → (count : ℤ) → Option ℕ → Files → Bool × Files
settle_count renamed (negsuc n) written fs = (false, record fs { pending = none })
settle_count renamed (pos n) written fs =
    if ltb 0 n && is_count written n && renamed
    then (true, record { output = fs.pending; pending = none })
    else (false, record fs { pending = none })

-- The classes of `w` play no part.
unfoldable pub dump_target : Vm → (fuel : ℕ) → Ctx → World → Files → Option (Bool × Files)
dump_target vm fuel ctx w fs =
    let streamed : Option (Bool × Files) =
      elim (iterate_classes vm write_class fuel (ue4j_writer_open w.room) ctx) [
        | none ↦ none
        | some r ↦
            let run = ue4j_writer_close w.flushed w.closed r.0 in
            some (settle_count w.renamed r.1 run.0 (record fs { pending = some run.1.text }))
      ] in
    if w.writer_opens then streamed else some (false, record fs { pending = none })

called-write_class : (w : Writer) (cs : List Class) → called write_class w cs ≡ write_classes w cs
unfolding called write_classes
called-write_class w [] = refl
called-write_class w (c ∷ cs) = called-write_class (write_class w c) cs

some-Streams :
    (w : Writer) (cs : List Class) (ctx : Ctx) (r : Option (Writer × ℤ × Ctx))
    → Streams write_class w (some (cs, ctx)) r
    → r ≡ some (write_classes w cs, pos (length cs), ctx)
unfolding Streams
some-Streams w cs ctx r h =
    h ∙ ap (λ (v : Writer). some (v, pos (length cs), ctx)) (called-write_class w cs)

-- When the target has an objects array and the walk over its classes returns the list `cs`, the
-- streaming part of `ue4_sdk_generate` over that target is the part that is given the classes
-- `cs`: the same result and the same files, whatever the calls and the disk do.
pub dump_target-stream :
    (vm : Vm) (fuel : ℕ) (ctx : Ctx) (objects : Objects) (cs : List Class) (ctx' : Ctx) (w : World)
    (fs : Files)
    → get_objects_info vm ctx.guobjectarray ≡ some objects
    → walk_classes vm fuel ctx ≡ some (cs, ctx')
    → dump_target vm fuel ctx w fs ≡ some (stream_classes (record w { classes = cs }) fs)
unfolding dump_target stream_classes settle settle_count
dump_target-stream vm fuel ctx objects cs ctx' w fs ho hw =
    let start = ue4j_writer_open w.room in
    let streams : Streams write_class start (some (cs, ctx'))
        (iterate_classes vm write_class fuel start ctx) =
      rw (sym hw) (iterate_classes-Streams vm write_class fuel start ctx objects ho) in
    rw (some-Streams start cs ctx' _ streams) (ground arith)
