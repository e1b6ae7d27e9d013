-- ===== src/Daemon/Writing.antt =====
-- `write_all` of source/daemon/main.c: what its loop leaves in the file.
use perfect_build_radar_touc.Base.{
  ℕ, zero, suc, ◌≤◌, ◌≡◌, refl, Bool, true, false, List, [], ◌∷◌, ◌++◌, Option, none, some, arith,
  Bytes, take, drop, length, length-drop,
}
use perfect_build_radar_touc.Daemon.{Written, wrote, interrupted, refused, write_all}

-- The calls of `write` that make progress or fail.
unfoldable pub answers : List Written → ℕ
answers [] = 0
answers (interrupted ∷ outs) = answers outs
answers (refused ∷ outs) = suc (answers outs)
answers (wrote n ∷ outs) = suc (answers outs)

-- What is left of `whole`: the file is a beginning of it, and all of it in case of success.
unfoldable pub Left : Bytes → Option (Bool × Bytes) → Type 0
Left whole none = Unit
Left whole (some r) = (rest : Bytes) × (r.1 ++ rest ≡ whole) × (r.0 ≡ true → rest ≡ [])

-- As many answers as there are bytes are enough.
pub write_all-ends :
    (outs : List Written) (data_left file : Bytes)
    → length data_left ≤ answers outs
    → (r : Bool × Bytes) × (write_all outs data_left file ≡ some r)
unfolding write_all answers
write_all-ends outs [] file h = ((true, file), refl)
write_all-ends [] (b ∷ bs) file h = absurd (omega arith)
write_all-ends (interrupted ∷ outs) (b ∷ bs) file h = write_all-ends outs (b ∷ bs) file h
write_all-ends (refused ∷ outs) (b ∷ bs) file h = ((false, file), refl)
write_all-ends (wrote zero ∷ outs) (b ∷ bs) file h = ((false, file), refl)
write_all-ends (wrote (suc n) ∷ outs) (b ∷ bs) file h =
    write_all-ends outs (drop n bs) (file ++ b ∷ take n bs) (omega (arith, length-drop n bs))
