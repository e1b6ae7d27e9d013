-- ===== src/Json/Output.antt =====
-- The stdio calls that the writers make.
use perfect_build_radar_touc.Base.{
  ℕ, ◌-◌, Bool, true, false, ◌||◌, [], ◌++◌, Bytes, ltb, leb, if◌then◌else◌, length, take,
}

infixl 5 ◌>>◌
-- The text in the file, the room that is left, and `ferror`.
pub record Stream : Type 0 where
  pub text : Bytes
  pub room : ℕ
  pub error : Bool

abbrev pub empty_file : ℕ → Stream
empty_file room = record { text = []; room = room; error = false }

-- What fits is written.
unfoldable pub put : Bytes → Stream → Stream
put t s = record {
  text = s.text ++ take s.room t;
  room = s.room - length t;
  error = s.error || ltb s.room (length t);
}

-- A function that writes to a stream, with `true` for 0 and `false` for -1.
abbrev pub Write : Type 0
Write = Stream → Bool × Stream

-- `if (fputs(t, fp) == EOF) return -1`.
unfoldable pub fputs : Bytes → Write
fputs t s = (leb (length t) s.room, put t s)

-- `fprintf(fp, ...)`, its result dropped.
unfoldable pub fprint : Bytes → Write
fprint t s = (true, put t s)

unfoldable pub done : Write
done s = (true, s)

-- An error ends the function.
unfoldable pub ◌>>◌ : Write → Write → Write
(v >> w) s = let r = v s in if r.0 then w r.1 else r
