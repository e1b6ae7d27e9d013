-- ===== src/Radar/Publish/Invariant.antt =====
-- The invariant of the interleaved writer and reader, and what the reader accepts.
mod Pieces
use mathlib.Core.List.{Memᴰ}
use perfect_build_radar_touc.Base.{
  ℕ, zero, suc, ◌+◌, ◌%◌, ◌^◌, ◌≤◌, ◌<◌, ◌≡◌, ◌≢◌, refl, sym, ap, ◌∙◌, subst, List, [], ◌∷◌, ◌++◌,
  Option, none, some, arith, ltb, ◌==◌, if◌then◌else◌, length, length-append, length-set,
  length-take, Bool-cases, get_or, set, take, take_of_length,
}
use native.Mathlib.Numerals.{add-one}
use perfect_build_radar_touc.Radar.Publish.{or_one}
use perfect_build_radar_touc.Radar.Publish.Protocol.{
  Writer, idle, copying, Reader, resting, reading, accepted, State, sequence, Step, begin, copy_out,
  finish, crash, load, copy_in, accept, retry, Reach, here, next,
}
use perfect_build_radar_touc.Radar.Publish.Invariant.Pieces.{
  take-set, take-snoc, or_one-odd, or_one-le, WriterOk, ReaderOk, IsGood, reader-publish,
  reader-write, writer-idle-of_even, writer-crash,
}

module _ (s : State) (g : IsGood s) where
  good-writer : WriterOk s.count s.payload s.log s.writer
  unfolding IsGood
  good-writer = g.0

  good-reader : ReaderOk s.count s.payload s.log s.reader
  unfolding IsGood
  good-reader = g.1

  begin-IsGood :
      (frame : List ℕ)
      → length frame ≡ length s.payload
      → IsGood (record s { count = or_one (s.count + 1); writer = copying frame 0 })
  unfolding IsGood WriterOk
  begin-IsGood frame hl =
      let odd = or_one-odd (s.count + 1) in
      let le = or_one-le (s.count + 1) in
      ((odd, hl, omega arith, refl), reader-write s.count _ _ _ _ _ (omega arith) odd good-reader)

  copy_out-IsGood :
      (frame : List ℕ) (i : ℕ)
      → s.writer ≡ copying frame i
      → i < length frame
      → IsGood (record s {
        payload = set s.payload i (get_or frame i 0);
        writer = copying frame (i + 1);
      })
  unfolding IsGood WriterOk
  copy_out-IsGood frame i hw hi =
      let w : WriterOk s.count s.payload s.log (copying frame i) =
        subst (WriterOk _ _ _) hw good-writer in
      let same : take (i + 1) (set s.payload i (get_or frame i 0)) ≡ take (i + 1) frame =
        rw (add-one i) (take-set s.payload frame i (sym w.1) hi w.3) in
      (
        (w.0, w.1 ∙ sym (length-set s.payload i _), omega arith, same),
        reader-write s.count s.count _ _ _ _ (omega arith) w.0 good-reader,
      )

  finish-IsGood :
      (frame : List ℕ)
      → s.writer ≡ copying frame (length frame)
      → IsGood (record s { count = s.count + 1; log = frame ∷ s.log; writer = idle })
  unfolding IsGood WriterOk
  finish-IsGood frame hw =
      let w : WriterOk s.count s.payload s.log (copying frame (length frame)) =
        subst (WriterOk _ _ _) hw good-writer in
      let same : s.payload ≡ frame =
        sym (take_of_length _ s.payload (omega (arith, w.1)))
        ∙ w.3
        ∙ take_of_length _ frame (omega arith) in
      ((λ even. Memᴰ.head same), reader-publish s.count _ _ _ frame _ _ (omega arith) good-reader)

  load-IsGood :
      sequence s.count % 2 ≡ 0 → IsGood (record s { reader = reading s.count s.payload [] })
  unfolding IsGood ReaderOk
  load-IsGood h =
      let even : s.count % 2 ≡ 0 = omega (arith, h) in
      (
        good-writer,
        (even, omega arith, writer-idle-of_even _ _ _ _ even good-writer, λ e. (refl, refl)),
      )

  copy_in-IsGood :
      (count : ℕ) (start buf : List ℕ)
      → s.reader ≡ reading count start buf
      → length buf < length s.payload
      → IsGood
          (record s { reader = reading count start (buf ++ get_or s.payload (length buf) 0 ∷ []) })
  unfolding IsGood ReaderOk
  copy_in-IsGood count start buf hr hl =
      let r : ReaderOk s.count s.payload s.log (reading count start buf) =
        subst (ReaderOk _ _ _) hr good-reader in
      let len : length (buf ++ get_or s.payload (length buf) 0 ∷ []) ≡ suc (length buf) =
        omega (arith, length-append buf (get_or s.payload (length buf) 0 ∷ [])) in
      let more : s.count ≡ count
          → buf ++ get_or s.payload (length buf) 0 ∷ []
            ≡ take (length (buf ++ get_or s.payload (length buf) 0 ∷ [])) s.payload =
        λ e. rw len (
          ap (λ b. b ++ get_or s.payload (length buf) 0 ∷ []) (r.3 e).1
          ∙ sym (take-snoc s.payload (length buf) hl)) in
      (good-writer, (r.0, r.1, r.2, λ e. ((r.3 e).0, more e)))

  accept-Mem :
      (count : ℕ) (start buf : List ℕ)
      → s.reader ≡ reading count start buf
      → length buf ≡ length s.payload
      → sequence s.count ≡ sequence count
      → s.count < count + 2 ^ 32
      → Memᴰ buf s.log
  unfolding ReaderOk
  accept-Mem count start buf hr hl hs hw =
      let r : ReaderOk s.count s.payload s.log (reading count start buf) =
        subst (ReaderOk _ _ _) hr good-reader in
      let same = r.3 (omega (arith, hs, hw, r.1)) in
      let whole : buf ≡ start = same.1 ∙ take_of_length _ s.payload (omega (arith, hl)) ∙ same.0 in
      subst (λ b. Memᴰ b s.log) (sym whole) r.2

Step-IsGood : {s t : State} → Step s t → IsGood s → IsGood t
unfolding IsGood ReaderOk
Step-IsGood {s} {t} (begin frame hw hl e) g = subst IsGood (sym e) (begin-IsGood s g frame hl)
Step-IsGood {s} {t} (copy_out frame i hw hi e) g =
    subst IsGood (sym e) (copy_out-IsGood s g frame i hw hi)
Step-IsGood {s} {t} (finish frame hw e) g = subst IsGood (sym e) (finish-IsGood s g frame hw)
Step-IsGood {s} {t} (crash e) g =
    subst IsGood (sym e) (writer-crash _ _ _ _ (good-writer s g), good-reader s g)
Step-IsGood {s} {t} (load h e) g = subst IsGood (sym e) (load-IsGood s g h)
Step-IsGood {s} {t} (copy_in c start buf hr hl e) g =
    subst IsGood (sym e) (copy_in-IsGood s g c start buf hr hl)
Step-IsGood {s} {t} (accept c start buf hr hl hs hw e) g =
    subst IsGood (sym e) (good-writer s g, accept-Mem s g c start buf hr hl hs hw)
Step-IsGood {s} {t} (retry e) g = subst IsGood (sym e) (good-writer s g, tt)

Reach-IsGood : {s t : State} → Reach s t → IsGood s → IsGood t
Reach-IsGood here g = g
Reach-IsGood (next r step) g = Step-IsGood step (Reach-IsGood r g)

-- When the region starts with a writer and a reader at rest and its payload counts as the first
-- frame, then after any interleaving of the writer's and the reader's accesses, crashes of the
-- writer and retries included, the words that the reader accepts are a frame that was published
-- whole.
pub accepted-Mem :
    (s t : State) (buf : List ℕ)
    → s.writer ≡ idle
    → s.reader ≡ resting
    → s.log ≡ s.payload ∷ []
    → Reach s t
    → t.reader ≡ accepted buf
    → Memᴰ buf t.log
unfolding IsGood WriterOk ReaderOk
accepted-Mem s t buf hw hr hl reach ht =
    let first : Memᴰ s.payload s.log = subst (Memᴰ s.payload) (sym hl) (Memᴰ.head refl) in
    let writer : WriterOk s.count s.payload s.log s.writer =
      subst (WriterOk _ _ _) (sym hw) (λ even. first) in
    let reader : ReaderOk s.count s.payload s.log s.reader = subst (ReaderOk _ _ _) (sym hr) tt in
    subst (ReaderOk t.count t.payload t.log) ht (Reach-IsGood reach (writer, reader)).1
