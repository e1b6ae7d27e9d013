-- ===== src/Radar/Publish/Invariant/Pieces.antt =====
-- The parts of the invariant: what holds of the writer and of the reader, and what keeps it.
use mathlib.Core.List.{Memᴰ}
use perfect_build_radar_touc.Base.{
  ℕ, zero, suc, ◌%◌, ◌≤◌, ◌<◌, ◌≡◌, refl, ap, List, [], ◌∷◌, ◌++◌, arith, length, get_or, set, take,
}
use perfect_build_radar_touc.Radar.Publish.{or_one}
use perfect_build_radar_touc.Radar.Publish.Protocol.{
  Writer, idle, copying, Reader, resting, reading, accepted, State,
}

-- A word that is copied extends the part that the two lists share.
pub take-set :
    (xs ys : List ℕ) (i : ℕ)
    → length xs ≡ length ys
    → i < length ys
    → take i xs ≡ take i ys
    → take (suc i) (set xs i (get_or ys i 0)) ≡ take (suc i) ys
take-set [] [] i hl hi h = refl
take-set [] (y ∷ ys) i hl hi h = absurd (omega arith)
take-set (x ∷ xs) [] i hl hi h = absurd (omega arith)
take-set (x ∷ xs) (y ∷ ys) zero hl hi h = refl
take-set (x ∷ xs) (y ∷ ys) (suc i) hl hi h =
    let hd : x ≡ y = cc in
    let tl : take i xs ≡ take i ys = cc in
    let rest = take-set xs ys i (omega arith) (omega arith) tl in cc

pub take-snoc :
    (xs : List ℕ) (i : ℕ) → i < length xs → take (suc i) xs ≡ take i xs ++ get_or xs i 0 ∷ []
take-snoc [] i h = absurd (omega arith)
take-snoc (x ∷ xs) zero h = refl
take-snoc (x ∷ xs) (suc i) h = ap (◌∷◌ x) (take-snoc xs i (omega arith))

pub or_one-odd : (n : ℕ) → or_one n % 2 ≡ 1
unfolding or_one
or_one-odd n = ground arith

pub or_one-le : (n : ℕ) → n ≤ or_one n
unfolding or_one
or_one-le n = ground arith

-- What holds of the writer.
unfoldable pub WriterOk : ℕ → List ℕ → List (List ℕ) → Writer → Type 0
WriterOk count payload log idle = count % 2 ≡ 0 → Memᴰ payload log
WriterOk count payload log (copying frame i) =
    (count % 2 ≡ 1)
    × (length frame ≡ length payload)
    × (i ≤ length frame)
    × (take i payload ≡ take i frame)

-- What holds of the reader: until the count goes on, the payload is the one of the first load.
unfoldable pub ReaderOk : ℕ → List ℕ → List (List ℕ) → Reader → Type 0
ReaderOk count payload log resting = Unit
ReaderOk count payload log (reading c start buf) =
    (c % 2 ≡ 0)
    × (c ≤ count)
    × Memᴰ start log
    × (count ≡ c → (payload ≡ start) × (buf ≡ take (length buf) payload))
ReaderOk count payload log (accepted buf) = Memᴰ buf log

-- The invariant.
unfoldable pub IsGood : State → Type 0
IsGood s = WriterOk s.count s.payload s.log s.writer × ReaderOk s.count s.payload s.log s.reader

-- A published frame stays published, and a count that goes on leaves nothing to say of the payload.
pub reader-publish :
    (count after : ℕ) (payload payload' frame : List ℕ) (log : List (List ℕ)) (r : Reader)
    → count < after
    → ReaderOk count payload log r
    → ReaderOk after payload' (frame ∷ log) r
unfolding ReaderOk
reader-publish count after payload payload' frame log resting h k = tt
reader-publish count after payload payload' frame log (reading c start buf) h (even, le, m, same) =
    (even, omega arith, Memᴰ.tail m, λ e. absurd (omega arith))
reader-publish count after payload payload' frame log (accepted buf) h m = Memᴰ.tail m

pub reader-write :
    (count after : ℕ) (payload payload' : List ℕ) (log : List (List ℕ)) (r : Reader)
    → count ≤ after
    → after % 2 ≡ 1
    → ReaderOk count payload log r
    → ReaderOk after payload' log r
unfolding ReaderOk
reader-write count after payload payload' log resting h odd k = tt
reader-write count after payload payload' log (reading c start buf) h odd (even, le, m, same) =
    (even, omega arith, m, λ e. absurd (omega arith))
reader-write count after payload payload' log (accepted buf) h odd m = m

pub writer-idle-of_even :
    (count : ℕ) (payload : List ℕ) (log : List (List ℕ)) (w : Writer)
    → count % 2 ≡ 0
    → WriterOk count payload log w
    → Memᴰ payload log
unfolding WriterOk
writer-idle-of_even count payload log idle even h = h even
writer-idle-of_even count payload log (copying frame i) even h = absurd (omega (arith, h.0))

pub writer-crash :
    (count : ℕ) (payload : List ℕ) (log : List (List ℕ)) (w : Writer)
    → WriterOk count payload log w
    → WriterOk count payload log idle
unfolding WriterOk
writer-crash count payload log idle h = h
writer-crash count payload log (copying frame i) h = λ even. absurd (omega (arith, h.0))
