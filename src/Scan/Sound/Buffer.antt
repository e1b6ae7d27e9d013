-- ===== src/Scan/Sound/Buffer.antt =====
-- The buffer of `pat_scan`: the overlap zone holds the memory before the page that is read next.
use mathlib.Core.List.{append_assoc, append-nil}
use perfect_build_radar_touc.Base.{
  ℕ, suc, ◌+◌, ◌-◌, ◌≤◌, ◌<◌, ◌^◌, ◌≡◌, sym, ◌∙◌, ap, Bool, true, false, [], ◌∷◌, ◌++◌, arith, ◌==◌,
  ltb, length, take, drop, length-take, length-drop, length-append, take-append_of_length,
  take_of_length, eq-nil_of_length, ◌⊎◌, Bytes, Bool-cases, Option-cases, inl, inr, add64,
  replicate, length-replicate,
}
use perfect_build_radar_touc.Remote
use perfect_build_radar_touc.Remote.{Vm, store}
use perfect_build_radar_touc.Remote.Memory.{
  window, Backs, window-append, drop-window, length-window, window-cong,
}
use perfect_build_radar_touc.Scan.{shift}
use perfect_build_radar_touc.Scan.Loop.{to_read, page_read, filled}
use perfect_build_radar_touc.Scan.Sound.Match.{drop-append_ge}

-- A read that succeeds fills the front of the buffer from memory.
read_backed :
    (mem : ℕ → ℕ) (vm : Vm) (addr n : ℕ) (buf : Bytes)
    → Backs mem vm
    → (Remote.read vm addr buf n).0 ≡ true
    → ((Remote.read vm addr buf n).1 ≡ window mem addr n ++ drop n buf) × (1 ≤ n)
unfolding Remote.read
read_backed mem vm addr n buf backs e = elim (Option-cases (vm addr n)) [
  | inl none_e ↦ ground arith
  | inr (bs, some_e) ↦ ground (arith, backs addr n bs some_e, length-window mem addr n)
]

length-read :
    (mem : ℕ → ℕ) (vm : Vm) (addr n : ℕ) (buf : Bytes)
    → Backs mem vm
    → n ≤ length buf
    → length (Remote.read vm addr buf n).1 ≡ length buf
unfolding Remote.read
length-read mem vm addr n buf backs h = elim (Option-cases (vm addr n)) [
  | inl none_e ↦ ground arith
  | inr (bs, some_e) ↦
      let l : length bs ≡ n = rw (backs addr n bs some_e) (length-window mem addr n) in
      ground (arith, length-append bs (drop (length bs) buf), length-drop (length bs) buf)
]

front-split :
    (mem : ℕ → ℕ) (a o m : ℕ) (rest : Bytes)
    → window mem a o ++ (window mem (a + o) (suc m) ++ rest)
      ≡ window mem a (o + 1) ++ (window mem (a + o + 1) m ++ rest)
front-split mem a o m rest =
    rw (window-append mem a o 1) (sym (append_assoc (window mem a o) (mem (a + o) ∷ []) _))

module _ (page overlap : ℕ) (fits : overlap ≤ page) where
  pub length-shift :
      (first : Bool) (buf : Bytes)
      → length buf ≡ overlap + page
      → length (shift page overlap first buf) ≡ overlap + page
  unfolding shift
  length-shift first buf l = ground (
    arith,
    length-append (take overlap (drop page buf)) (drop overlap buf),
    length-take overlap (drop page buf),
    length-drop page buf,
    length-drop overlap buf,
  )

  -- The overlap zone behind the shift is the tail of the page before.
  pub take-shift :
      (buf w : Bytes)
      → drop page buf ≡ w
      → length w ≡ overlap
      → take overlap (shift page overlap false buf) ≡ w
  unfolding shift
  take-shift buf w e l = elim (Bool-cases (overlap == 0)) [
    | inl z ↦
        let none_left : overlap ≡ 0 = ground arith in
        rw none_left (sym (eq-nil_of_length w (omega arith)))
    | inr p ↦
        rw (p, e, take_of_length overlap w (omega arith))
          (take-append_of_length overlap w (drop overlap buf) l)
  ]

module _ (mem : ℕ → ℕ) (vm : Vm) (backs : Backs mem vm) (page start size : ℕ) (pattern mask : Bytes)
    (pat_len : ℕ) (fits : pat_len ≤ page + 1) (some_pat : 1 ≤ pat_len)
    (no_wrap : start + size ≤ 2 ^ 64) where
  abbrev overlap : ℕ
  overlap = pat_len - 1

  abbrev reads : ℕ → ℕ
  reads = to_read vm page start size pattern mask pat_len

  abbrev buffer : ℕ → Bool → Bytes → Bytes
  buffer = filled vm page start size pattern mask pat_len

  -- The overlap zone of the next round, where one is used.
  abbrev Tail : ℕ → Bytes → Type 0
  Tail offset buf =
      (size ≤ offset)
      ⊎ ((overlap ≤ offset) × (drop page buf ≡ window mem (start + offset - overlap) overlap))

  pub record BufferInv (offset : ℕ) (first : Bool) (buf : Bytes) : Type 0 where
    pub len : length buf ≡ overlap + page
    pub tail : first ≡ false → Tail offset buf

  reads-le-page : (offset : ℕ) → reads offset ≤ page
  reads-le-page offset = ground arith

  length-buffer :
      (offset : ℕ) (first : Bool) (buf : Bytes)
      → length buf ≡ overlap + page
      → length (buffer offset first buf) ≡ overlap + page
  length-buffer offset first buf l =
      let s = shift page overlap first buf in
      let ls = length-shift page overlap (omega arith) first buf l in
      let ld = length-drop overlap s in
      omega (
        arith,
        length-append (take overlap s)
            (page_read vm page start size pattern mask pat_len offset first buf).1,
        length-take overlap s,
        length-read mem vm (add64 start offset) (reads offset) (drop overlap s) backs
            (omega (arith, reads-le-page offset)),
      )

  -- The buffer behind a page that could not be read.
  pub skip-BufferInv :
      (offset : ℕ) (first : Bool) (buf : Bytes)
      → BufferInv offset first buf
      → BufferInv
          (offset + reads offset)
          true
          (replicate overlap 0 ++ drop overlap (buffer offset first buf))
  skip-BufferInv offset first buf inv = record {
    len = omega (
      arith,
      length-append (replicate overlap 0) (drop overlap (buffer offset first buf)),
      length-replicate {A = ℕ} overlap 0,
      length-drop overlap (buffer offset first buf),
      length-buffer offset first buf inv.len,
    );
    tail = λ e. cc;
  }

  module _ (offset : ℕ) (first : Bool) (buf : Bytes) (inv : BufferInv offset first buf)
      (inside : offset < size)
      (good : (page_read vm page start size pattern mask pat_len offset first buf).0 ≡ true) where
    abbrev zone : Bytes
    zone = take overlap (shift page overlap first buf)

    pub length-zone : length zone ≡ overlap
    length-zone = omega (
      arith,
      length-take overlap (shift page overlap first buf),
      length-shift page overlap (omega arith) first buf inv.len,
    )

    -- The page read stands behind the zone, and nothing of the old page counts.
    buffer-window :
        (rest : Bytes) × (buffer offset first buf
          ≡ zone ++ (window mem (start + offset) (reads offset) ++ rest))
        × (length rest + reads offset ≡ page)
        × (1 ≤ reads offset)
    buffer-window =
        let s = shift page overlap first buf in
        let n = reads offset in
        let r = read_backed mem vm (add64 start offset) n (drop overlap s) backs good in
        let e : add64 start offset ≡ start + offset = omega arith in
        (
          drop n (drop overlap s),
          ap (λ t. zone ++ t) (r.0 ∙ ap (λ a. window mem a n ++ drop n (drop overlap s)) e),
          omega (
            arith,
            length-drop n (drop overlap s),
            length-drop overlap s,
            length-shift page overlap (omega arith) first buf inv.len,
            reads-le-page offset,
          ),
          r.1,
        )

    -- Behind a whole page, the last bytes of the buffer are the tail of that page.
    drop-buffer :
        reads offset ≡ page
        → drop page (buffer offset first buf)
          ≡ window mem (start + (offset + reads offset) - overlap) overlap
    drop-buffer full =
        let (rest, e, l, _) = buffer-window in
        let no_rest : rest ≡ [] = eq-nil_of_length rest (omega arith) in
        let size_e : reads offset ≡ page - overlap + overlap = omega arith in
        let k : page - length zone ≡ page - overlap = omega (arith, length-zone) in
        let a : start + offset + (page - overlap) ≡ start + (offset + reads offset) - overlap =
          omega arith in
        ap (drop page) e
        ∙ drop-append_ge page zone _ (omega (arith, length-zone))
        ∙ rw (k, no_rest, append-nil, size_e)
            (drop-window mem (start + offset) (page - overlap) overlap)
        ∙ window-cong mem overlap a

    pub next-BufferInv : BufferInv (offset + reads offset) false (buffer offset first buf)
    next-BufferInv = record { len = length-buffer offset first buf inv.len; tail = λ _. tail_e }
      where
        tail_e : Tail (offset + reads offset) (buffer offset first buf)
        tail_e = elim (Bool-cases (ltb (size - offset) page)) [
          | inl short ↦ inl (ground arith)
          | inr long ↦ inr (ground (arith), drop-buffer (ground arith))
        ]

    -- Where the zone is in use, the buffer begins with the memory from the zone's address on.
    pub front-window :
        zone ≡ window mem (start + offset - overlap) overlap
        → overlap ≤ start + offset
        → (rest : Bytes) × (buffer offset first buf
            ≡ window mem (start + offset - overlap) pat_len ++ rest)
    front-window e h =
        let (rest, w, _, n) = buffer-window in
        let m = reads offset - 1 in
        let front = start + offset - overlap in
        let one : reads offset ≡ suc m = omega arith in
        let whole : overlap + 1 ≡ pat_len = omega arith in
        let next : front + overlap + 1 ≡ start + offset + 1 = omega arith in
        let at : start + offset ≡ start + offset - overlap + overlap = omega arith in
        (
          window mem (start + offset + 1) m ++ rest,
          w
              ∙ (λ i. e i ++ (window mem (at i) (one i) ++ rest))
              ∙ front-split mem front overlap m rest
              ∙ (λ i. window mem front (whole i) ++ (window mem (next i) m ++ rest)),
        )
