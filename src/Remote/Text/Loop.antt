-- ===== src/Remote/Text/Loop.antt =====
-- The loop of `rm_read_string`, chunk by chunk.
use mathlib.Core.List.{append_assoc, append-nil}
use perfect_build_radar_touc.Base.{
  ℕ, zero, suc, ◌+◌, ◌-◌, ◌≤◌, ◌<◌, ◌^◌, ◌≡◌, refl, sym, ◌∙◌, ap, Bool, true, false, not, ◌++◌, [],
  none, some, arith, inl, inr, min, length, length-append, ◌==◌, ltb, if◌then◌else◌, Bool-cases,
  Option-cases, Bytes, add64, All, All-append,
}
use perfect_build_radar_touc.Remote.{Vm, fetch, read_chunks, read_string}
use perfect_build_radar_touc.Remote.Memory.{window, Maps, window-append, length-window}
use perfect_build_radar_touc.Remote.Fetch.{fetch-of_vm, vm-of_fetch}
use perfect_build_radar_touc.Remote.Text.Cut.{
  cut, has_nul, copy_chunk_lem, cut-append_nul, cut-append, cut_whole, length-cut, NotNul, All-cut,
}

module _ (vm : Vm) (addr max : ℕ) where
  abbrev chunk : Bytes → ℕ
  chunk out = min 64 (max - 1 - length out)

  read_chunks_stop :
      (fuel : ℕ) (out : Bytes)
      → max - 1 ≤ length out
      → read_chunks vm addr max fuel out ≡ (true, out)
  unfolding read_chunks
  read_chunks_stop zero out h = refl
  read_chunks_stop (suc fuel) out h = ground arith

  -- The two early returns agree with the loop but for an empty buffer.
  pub read_string_lem : 0 < max → read_string vm addr max ≡ read_chunks vm addr max max []
  unfolding read_string
  read_string_lem h = ground (arith, read_chunks_stop max [])

  read_chunks_fail :
      (fuel : ℕ) (out : Bytes)
      → length out < max - 1
      → fetch vm (add64 addr (length out)) (chunk out) ≡ none
      → read_chunks vm addr max (suc fuel) out ≡ (not (length out == 0), out)
  unfolding read_chunks
  read_chunks_fail fuel out h e = ground arith

  read_chunks_more :
      (fuel : ℕ) (out tmp : Bytes)
      → length out < max - 1
      → fetch vm (add64 addr (length out)) (chunk out) ≡ some tmp
      → read_chunks vm addr max (suc fuel) out ≡ (
          if has_nul tmp
          then (true, out ++ cut tmp)
          else read_chunks vm addr max fuel (out ++ cut tmp))
  unfolding read_chunks
  read_chunks_more fuel out tmp h e = ground (arith, copy_chunk_lem out tmp)

  abbrev IsText : Bytes → Type 0
  IsText s = (length s ≤ max - 1) × All NotNul s

  append_cut-IsText :
      (out tmp : Bytes) → IsText out → length tmp ≤ max - 1 - length out → IsText (out ++ cut tmp)
  append_cut-IsText out tmp t h = (
    omega (arith, length-append out (cut tmp), length-cut tmp, t.0),
    All-append NotNul out (cut tmp) t.1 (All-cut tmp),
  )

  IsText-if :
      (b : Bool) (x y : Bool × Bytes) → IsText x.1 → IsText y.1 → IsText (if b then x else y).1
  IsText-if true x y h k = h
  IsText-if false x y h k = k

  -- Whatever the kernel call returns, the text stays inside the buffer.
  pub read_chunks-IsText :
      (fuel : ℕ) (out : Bytes) → IsText out → IsText (read_chunks vm addr max fuel out).1
  unfolding read_chunks
  read_chunks-IsText zero out t = t
  read_chunks-IsText (suc fuel) out t = elim (Bool-cases (ltb (length out) (max - 1))) [
    | inr e ↦ rw (read_chunks_stop (suc fuel) out (ground arith)) t
    | inl e ↦ elim (Option-cases (fetch vm (add64 addr (length out)) (chunk out))) [
      | inl e' ↦ rw (read_chunks_fail fuel out (ground arith) e') t
      | inr (tmp, e') ↦
          let l = (vm-of_fetch vm _ _ tmp e').1 in
          let t' : IsText (out ++ cut tmp) = append_cut-IsText out tmp t (omega arith) in
          rw (read_chunks_more fuel out tmp (ground arith) e')
            (IsText-if (has_nul tmp) _ _ t' (read_chunks-IsText fuel (out ++ cut tmp) t'))
    ]
  ]

  module _ (mem : ℕ → ℕ) (maps : Maps mem vm addr (addr + (max - 1)))
      (fits : addr + max ≤ 2 ^ 64) where
    fetch-chunk :
        (out : Bytes)
        → length out < max - 1
        → fetch vm (add64 addr (length out)) (chunk out)
          ≡ some (window mem (addr + length out) (chunk out))
    fetch-chunk out h =
        let e : add64 addr (length out) ≡ addr + length out = omega arith in
        rw e (
          fetch-of_vm vm (addr + length out) (chunk out) _
            (maps (addr + length out) (chunk out) (omega arith) (omega arith))
            (length-window mem (addr + length out) (chunk out)) (omega arith))

    -- The text from `out` on.
    abbrev rest_of : Bytes → Bytes
    rest_of out = window mem (addr + length out) (max - 1 - length out)

    window-split :
        (out : Bytes)
        → length out < max - 1
        → rest_of out
          ≡ window mem (addr + length out) (chunk out)
            ++ window mem (addr + length out + chunk out) (max - 1 - length out - chunk out)
    window-split out h =
        let e : chunk out + (max - 1 - length out - chunk out) ≡ max - 1 - length out =
          omega arith in
        ap (window mem (addr + length out)) (sym e) ∙ window-append mem _ (chunk out) _

    split-chunk :
        (fuel : ℕ) (out : Bytes)
        → length out < max - 1
        → ((out' : Bytes)
            → length out < length out'
            → length out' ≤ max - 1
            → read_chunks vm addr max fuel out' ≡ (true, out' ++ cut (rest_of out')))
        → (if has_nul (window mem (addr + length out) (chunk out))
            then (true, out ++ cut (window mem (addr + length out) (chunk out)))
            else read_chunks vm addr max fuel
                (out ++ cut (window mem (addr + length out) (chunk out))))
          ≡ (true, out ++ cut (rest_of out))
    split-chunk fuel out h ih =
        let tmp = window mem (addr + length out) (chunk out) in
        let out' = out ++ tmp in
        let l : length out' ≡ length out + chunk out =
          omega (arith, length-append out tmp, length-window mem (addr + length out) (chunk out)) in
        let e1 : addr + length out' ≡ addr + length out + chunk out = omega arith in
        let e2 : max - 1 - length out' ≡ max - 1 - length out - chunk out = omega arith in
        elim (Bool-cases (has_nul tmp)) [
          | inl e ↦ rw (e, window-split out h) (rw (cut-append_nul tmp _ e))
          | inr e ↦
              rw (e, cut_whole tmp e, window-split out h, cut-append tmp _ e)
                (ih out' (omega arith) (omega arith) ∙ rw (e1, e2, append_assoc out tmp _))
        ]

    pub read_chunks-eq-cut :
        (fuel : ℕ) (out : Bytes)
        → max - 1 - length out < fuel
        → length out ≤ max - 1
        → read_chunks vm addr max fuel out
          ≡ (true, out ++ cut (window mem (addr + length out) (max - 1 - length out)))
    unfolding cut
    read_chunks-eq-cut zero out f h = absurd (omega arith)
    read_chunks-eq-cut (suc fuel) out f h = elim (Bool-cases (ltb (length out) (max - 1))) [
      | inr e ↦
          let z : max - 1 - length out ≡ 0 = ground arith in
          rw (read_chunks_stop (suc fuel) out (ground arith), z) (ground (arith, append-nil out))
      | inl e ↦
          let lt : length out < max - 1 = ground arith in
          rw (read_chunks_more fuel out _ lt (fetch-chunk out lt))
            (split-chunk fuel out lt (λ out' p q. read_chunks-eq-cut fuel out' (omega arith) q))
    ]
