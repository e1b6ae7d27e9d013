-- ===== src/Radar/Publish/Tests.antt =====
-- A run of the writer and the reader over a region of six words.
use mathlib.Core.List.{Memᴰ}
use perfect_build_radar_touc.Base.{ℕ, ◌≡◌, refl, true, false, List, [], ◌∷◌, arith, length}
use perfect_build_radar_touc.Radar.Publish.{
  Publisher, words, stamp, or_one, begin_sequence, publish, radar_magic,
}
use perfect_build_radar_touc.Radar.Publish.Protocol.{
  idle, resting, accepted, State, sequence, begin, copy_out, finish, load, copy_in, accept, Reach,
  here, next,
}
use perfect_build_radar_touc.Radar.Publish.Invariant.{accepted-Mem}
use perfect_build_radar_touc.Radar.Publish.Refine.{publish-Reach}

abbrev publisher : Publisher
publisher = record {
  frame = record { magic = 0; version = 0; tick = 0; prefix = 7 ∷ []; status = 0; suffix = 9 ∷ [] };
  tick = 41;
  last_status = 0;
  first_live = false;
}

-- An odd sequence number, as a killed daemon leaves it, is passed over.
publish_runs :
    ((publish true publisher (record { sequence = 6; payload = [] }) 2).1.sequence ≡ 8)
    × ((publish true publisher (record { sequence = 7; payload = [] }) 2).1.sequence ≡ 10)
    × ((publish true publisher (record { sequence = 6; payload = [] }) 2).1.payload
        ≡ radar_magic ∷ 4 ∷ 42 ∷ 7 ∷ 2 ∷ 9 ∷ [])
    × ((publish true publisher (record { sequence = 6; payload = [] }) 2).0.first_live ≡ true)
unfolding publish stamp begin_sequence or_one
publish_runs = (refl, refl, refl, refl)

abbrev blank : State
blank = record {
  count = 0;
  payload = 0 ∷ 0 ∷ [];
  log = (0 ∷ 0 ∷ []) ∷ [];
  writer = idle;
  reader = resting;
}

abbrev rewritten : State
rewritten = record blank { count = 2; payload = 3 ∷ 4 ∷ []; log = (3 ∷ 4 ∷ []) ∷ blank.log }

-- A frame is written, and then read.
write_then_read : Reach blank (record rewritten { reader = accepted (3 ∷ 4 ∷ []) })
unfolding or_one
write_then_read =
    next
      (next
        (next
          (next
            (next
              (next
                (next (next here (begin (3 ∷ 4 ∷ []) refl refl refl))
                  (copy_out (3 ∷ 4 ∷ []) 0 refl (omega arith) refl))
                (copy_out (3 ∷ 4 ∷ []) 1 refl (omega arith) refl))
              (finish (3 ∷ 4 ∷ []) refl refl))
            (load refl refl))
          (copy_in 2 (3 ∷ 4 ∷ []) [] refl (omega arith) refl))
        (copy_in 2 (3 ∷ 4 ∷ []) (3 ∷ []) refl (omega arith) refl))
      (accept 2 (3 ∷ 4 ∷ []) (3 ∷ 4 ∷ []) refl refl refl (omega arith) refl)

accepted-Mem_example : Memᴰ {A = List ℕ} (3 ∷ 4 ∷ []) ((3 ∷ 4 ∷ []) ∷ (0 ∷ 0 ∷ []) ∷ [])
accepted-Mem_example =
    accepted-Mem blank (record rewritten { reader = accepted (3 ∷ 4 ∷ []) }) (3 ∷ 4 ∷ []) refl refl
      refl write_then_read refl

abbrev six_words : State
six_words = record blank { count = 7; payload = 0 ∷ 0 ∷ 0 ∷ 0 ∷ 0 ∷ 0 ∷ []; log = [] }

length-words : length (words (stamp publisher 2)) ≡ 6
unfolding stamp
length-words = refl

publish-Reach_example :
    (t : State) × Reach six_words t
    × (t.writer ≡ idle)
    × (t.log ≡ words (stamp publisher 2) ∷ six_words.log)
    × (record { sequence = sequence t.count; payload = t.payload }
        ≡ (publish true publisher (record { sequence = 7; payload = six_words.payload }) 2).1)
publish-Reach_example = publish-Reach true publisher six_words 2 refl length-words
