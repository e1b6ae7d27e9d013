-- ===== src/Radar/Publish/Refine.antt =====
-- `publish`, run in one go, against the writer's steps.
use mathlib.Core.List.{append-nil}
use native.Mathlib.Numerals.{add-one}
use perfect_build_radar_touc.Base.{
  ℕ, zero, suc, ◌+◌, ◌%◌, ◌^◌, ◌≤◌, ◌<◌, ◌≡◌, refl, sym, ap, ◌∙◌, Bool, List, [], ◌∷◌, ◌++◌, arith,
  length, get_or, set, take, drop, take_of_length, drop_of_length,
}
use perfect_build_radar_touc.Radar.Publish.{
  Publisher, words, stamp, or_one, begin_sequence, publish,
}
use perfect_build_radar_touc.Radar.Publish.Protocol.{
  idle, copying, State, sequence, begin, copy_out, finish, Reach, here, next,
}

-- One more word of `frame` over the rest of `old`.
set-take-drop :
    (frame old : List ℕ) (i : ℕ)
    → length frame ≡ length old
    → i < length frame
    → set (take i frame ++ drop i old) i (get_or frame i 0) ≡ take (suc i) frame ++ drop (suc i) old
set-take-drop [] old i hl hi = absurd (omega arith)
set-take-drop (x ∷ frame) [] i hl hi = absurd (omega arith)
set-take-drop (x ∷ frame) (y ∷ old) zero hl hi = refl
set-take-drop (x ∷ frame) (y ∷ old) (suc i) hl hi =
    ap (◌∷◌ x) (set-take-drop frame old i (omega arith) (omega arith))

module _ (s : State) (frame : List ℕ) (hl : length frame ≡ length s.payload) where
  -- The state when `i` words are copied.
  copied : ℕ → State
  copied i = record s {
    count = or_one (s.count + 1);
    payload = take i frame ++ drop i s.payload;
    writer = copying frame i;
  }

  copied-Reach : s.writer ≡ idle → (i : ℕ) → i ≤ length frame → Reach s (copied i)
  unfolding copied
  copied-Reach hw zero hi = next here (begin frame hw hl refl)
  copied-Reach hw (suc i) hi = next (copied-Reach hw i (omega arith)) (
      copy_out frame i refl (omega arith) (
        sym (λ k. record s {
          count = or_one (s.count + 1);
          payload = set-take-drop frame s.payload i hl (omega arith) k;
          writer = copying frame (add-one i k);
        })))

  publish_steps-Reach :
      s.writer ≡ idle
      → Reach s (record s {
        count = or_one (s.count + 1) + 1;
        payload = frame;
        log = frame ∷ s.log;
        writer = idle;
      })
  unfolding copied
  publish_steps-Reach hw = next (copied-Reach hw (length frame) (omega arith)) (
      finish frame refl (
        sym (λ k. record s {
          count = or_one (s.count + 1) + 1;
          payload = whole k;
          log = frame ∷ s.log;
          writer = idle;
        })))
    where
      whole : take (length frame) frame ++ drop (length frame) s.payload ≡ frame
      whole =
          ap (λ xs. xs ++ drop (length frame) s.payload) (take_of_length _ frame (omega arith))
          ∙ ap (λ ys. frame ++ ys) (drop_of_length _ s.payload (omega (arith, hl)))
          ∙ append-nil frame

-- The wrap of the sequence number keeps its parity.
sequence-finish :
    (count : ℕ) → sequence (or_one (count + 1) + 1) ≡ (begin_sequence (sequence count) + 1) % 2 ^ 32
unfolding or_one begin_sequence
sequence-finish count = ground arith

-- For a region with room for the frame, `publish` ends in a state that the writer's steps reach
-- from the region: the same sequence number and payload, with the frame as the newest of the log.
pub publish-Reach :
    (logging : Bool) (p : Publisher) (s : State) (status : ℕ)
    → s.writer ≡ idle
    → length (words (stamp p status)) ≡ length s.payload
    → (t : State) × Reach s t
      × (t.writer ≡ idle)
      × (t.log ≡ words (stamp p status) ∷ s.log)
      × (record { sequence = sequence t.count; payload = t.payload }
          ≡ (publish logging p
              (record { sequence = sequence s.count; payload = s.payload })
              status).1)
unfolding publish
publish-Reach logging p s status hw hl =
    let frame = words (stamp p status) in
    (
      record s {
        count = or_one (s.count + 1) + 1;
        payload = frame;
        log = frame ∷ s.log;
        writer = idle;
      },
      publish_steps-Reach s frame hl hw,
      refl,
      refl,
      λ k. record { sequence = sequence-finish s.count k; payload = frame },
    )
