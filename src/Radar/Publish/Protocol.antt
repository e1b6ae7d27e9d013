-- ===== src/Radar/Publish/Protocol.antt =====
-- The writer and a reader as interleaved steps. One step is one access to the shared region. The
-- count is the sequence number without its wrap at 2 ^ 32.
use perfect_build_radar_touc.Base.{
  ℕ, ◌+◌, ◌%◌, ◌^◌, ◌<◌, ◌≡◌, List, [], ◌∷◌, ◌++◌, get_or, set, length,
}
use perfect_build_radar_touc.Radar.Publish.{or_one}

-- `publish` outside its critical part, or with the frame that it copies and the words copied.
pub data Writer : Type 0 where
  idle : Writer
  copying : List ℕ → ℕ → Writer

-- `read_snapshot` between its two loads: the count and the payload at the first load, for
-- reference, and the words copied; or the words that it has accepted.
pub data Reader : Type 0 where
  resting : Reader
  reading : ℕ → List ℕ → List ℕ → Reader
  accepted : List ℕ → Reader

-- `log` holds every frame that was published whole, the newest first.
pub record State : Type 0 where
  pub count : ℕ
  pub payload : List ℕ
  pub log : List (List ℕ)
  pub writer : Writer
  pub reader : Reader

abbrev pub sequence : ℕ → ℕ
sequence count = count % 2 ^ 32

pub data Step (s t : State) : Type 0 where
  -- The store of the odd sequence number.
  begin :
      (frame : List ℕ)
      → s.writer ≡ idle
      → length frame ≡ length s.payload
      → t ≡ record s { count = or_one (s.count + 1); writer = copying frame 0 }
      → Step s t
  -- One word of the two `memcpy`s.
  copy_out :
      (frame : List ℕ) (i : ℕ)
      → s.writer ≡ copying frame i
      → i < length frame
      → t
        ≡ record s { payload = set s.payload i (get_or frame i 0); writer = copying frame (i + 1) }
      → Step s t
  -- The store of the even sequence number.
  finish :
      (frame : List ℕ)
      → s.writer ≡ copying frame (length frame)
      → t ≡ record s { count = s.count + 1; log = frame ∷ s.log; writer = idle }
      → Step s t
  -- The daemon is killed; a new one starts with the region as it is.
  crash : t ≡ record s { writer = idle } → Step s t
  -- The first load of the sequence number, which is even.
  load :
      sequence s.count % 2 ≡ 0 → t ≡ record s { reader = reading s.count s.payload [] } → Step s t
  -- One word of the reader's `memcpy`.
  copy_in :
      (count : ℕ) (start buf : List ℕ)
      → s.reader ≡ reading count start buf
      → length buf < length s.payload
      → t ≡ record s { reader = reading count start (buf ++ get_or s.payload (length buf) 0 ∷ []) }
      → Step s t
  -- The second load gives the same number. In between the sequence number has not gone round
  -- once: that takes 2 ^ 31 frames, more than three years at 20 a second.
  accept :
      (count : ℕ) (start buf : List ℕ)
      → s.reader ≡ reading count start buf
      → length buf ≡ length s.payload
      → sequence s.count ≡ sequence count
      → s.count < count + 2 ^ 32
      → t ≡ record s { reader = accepted buf }
      → Step s t
  -- The second load gives another number, or the caller has gone on.
  retry : t ≡ record s { reader = resting } → Step s t

pub data Reach (s : State) : State → Type 0 where
  here : Reach s s
  next : {t u : State} → Reach s t → Step t u → Reach s u
