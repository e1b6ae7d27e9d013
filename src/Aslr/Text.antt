-- ===== src/Aslr/Text.antt =====
-- `find_text`: the walk over the load commands.
use perfect_build_radar_touc.Base.{
  ℕ, zero, suc, ◌≤◌, ◌<◌, ◌≡◌, ◌≢◌, ◌↔◌, inl, inr, refl, true, false, some, arith, ltb, ◌==◌,
  Bool-cases, Option-cases, Bytes, add64, u64_mod,
}
use perfect_build_radar_touc.MachO.{Command, Segment, Loader, same_prefix}
use perfect_build_radar_touc.Remote.{Vm, fetch}
use perfect_build_radar_touc.Aslr.{text_name, find_text}

module _ (vm : Vm) (l : Loader) where
  -- The load command at `offset`, with a size that the walk accepts.
  pub record IsCommand (offset : ℕ) (lc : Command) : Type 0 where
    pub raw : Bytes
    pub fetched : fetch vm offset l.command_size ≡ some raw
    pub decoded : lc ≡ l.command raw
    pub sized : l.command_size ≤ lc.cmdsize

  -- The segment command at `offset`.
  pub record IsSegment (offset : ℕ) (lc : Command) (seg : Segment) : Type 0 where
    pub is_segment : lc.cmd ≡ l.lc_segment_64
    pub whole : l.segment_size ≤ lc.cmdsize
    pub raw : Bytes
    pub fetched : fetch vm offset l.segment_size ≡ some raw
    pub decoded : seg ≡ l.segment raw

  -- Among `n` load commands from `offset` on, the first segment with the name of __TEXT has the
  -- address `v`, and every command before it is well formed.
  pub data TextAt (v : ℕ) : ℕ → ℕ → Type 0 where
    here :
        {n offset : ℕ} (lc : Command) (seg : Segment)
        → IsCommand offset lc
        → IsSegment offset lc seg
        → same_prefix 6 seg.segname text_name ≡ true
        → seg.vmaddr ≡ v
        → TextAt v (suc n) offset
    other_segment :
        {n offset : ℕ} (lc : Command) (seg : Segment)
        → IsCommand offset lc
        → IsSegment offset lc seg
        → same_prefix 6 seg.segname text_name ≡ false
        → TextAt v n (add64 offset lc.cmdsize)
        → TextAt v (suc n) offset
    other_command :
        {n offset : ℕ} (lc : Command)
        → IsCommand offset lc
        → lc.cmd ≢ l.lc_segment_64
        → TextAt v n (add64 offset lc.cmdsize)
        → TextAt v (suc n) offset

  find_text-of_TextAt : {v n offset : ℕ} → TextAt v n offset → find_text vm l n offset ≡ some v
  unfolding find_text
  find_text-of_TextAt (here lc seg c s e ve) = ground arith
  find_text-of_TextAt (other_segment lc seg c s e t) = ground (arith, find_text-of_TextAt t)
  find_text-of_TextAt (other_command lc c ne t) = ground (arith, find_text-of_TextAt t)

  -- A segment command, given what the later commands yield.
  segment-TextAt :
      (v n offset : ℕ) (lc : Command)
      → IsCommand offset lc
      → lc.cmd ≡ l.lc_segment_64
      → (find_text vm l n (add64 offset lc.cmdsize) ≡ some v → TextAt v n (add64 offset lc.cmdsize))
      → find_text vm l (suc n) offset ≡ some v
      → TextAt v (suc n) offset
  unfolding find_text
  segment-TextAt v n offset lc c eq later h = elim (Bool-cases (ltb lc.cmdsize l.segment_size)) [
    | inl short ↦ absurd (ground arith)
    | inr whole ↦ elim (Option-cases (fetch vm offset l.segment_size)) [
      | inl e ↦ absurd (ground arith)
      | inr (raw, e) ↦
          let seg = l.segment raw in
          let s : IsSegment offset lc seg = record {
            is_segment = eq;
            whole = ground arith;
            raw = raw;
            fetched = e;
            decoded = refl;
          } in
          elim (Bool-cases (same_prefix 6 seg.segname text_name)) [
            | inl y ↦ here lc seg c s y (ground arith)
            | inr n ↦ other_segment lc seg c s n (later (ground arith))
          ]
    ]
  ]

  TextAt-of_find_text : (v n offset : ℕ) → find_text vm l n offset ≡ some v → TextAt v n offset
  unfolding find_text
  TextAt-of_find_text v zero offset h = cc
  TextAt-of_find_text v (suc n) offset h = elim (Option-cases (fetch vm offset l.command_size)) [
    | inl e ↦ absurd (ground arith)
    | inr (raw, e) ↦
        let lc = l.command raw in
        let later = TextAt-of_find_text v n (add64 offset lc.cmdsize) in
        elim (Bool-cases (ltb lc.cmdsize l.command_size)) [
          | inl small ↦ absurd (ground arith)
          | inr sized ↦
              let c : IsCommand offset lc = record {
                raw = raw;
                fetched = e;
                decoded = refl;
                sized = ground arith;
              } in
              elim (Bool-cases (lc.cmd == l.lc_segment_64)) [
                | inr ne ↦ other_command lc c (ground arith) (later (ground arith))
                | inl eq ↦ segment-TextAt v n offset lc c (ground arith) later h
              ]
        ]
  ]

  -- The walk over the load commands yields `v` exactly when `v` is the address of the first segment
  -- named like __TEXT among them, every command up to it being readable and well formed.
  pub find_text_iff : (v n offset : ℕ) → (find_text vm l n offset ≡ some v) ↔ TextAt v n offset
  find_text_iff v n offset = (TextAt-of_find_text v n offset, find_text-of_TextAt)

  pub TextAt-lt :
      {v n offset : ℕ}
      → ((raw : Bytes) → (l.segment raw).vmaddr < u64_mod)
      → TextAt v n offset
      → v < u64_mod
  TextAt-lt words (here lc seg c s e ve) = ground (arith, words s.raw)
  TextAt-lt words (other_segment lc seg c s e t) = TextAt-lt words t
  TextAt-lt words (other_command lc c ne t) = TextAt-lt words t
