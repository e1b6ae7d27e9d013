-- ===== src/Radar/Text/Printable.antt =====
-- The length and the characters of a text that `read_fstring` gives.
use perfect_build_radar_touc.Base.{
  ℕ, zero, suc, ◌-◌, ◌*◌, ◌≤◌, ◌<◌, ◌≡◌, inl, inr, subst, not, ◌||◌, [], ◌∷◌, Option, none, some,
  arith, ltb, ◌==◌, if◌then◌else◌, take, drop, length, Bytes, le, All, Bool-cases, Option-cases,
  if-split, signed32, nat_of, pos, ltb_int,
}
use perfect_build_radar_touc.Remote.{Vm, fetch, validate_ptr}
use perfect_build_radar_touc.Radar.Text.{shown, narrow, read_units, read_fstring}

-- A printable ASCII character.
abbrev pub IsAscii : ℕ → Type 0
IsAscii c = (32 ≤ c) × (c ≤ 126)

-- What a successful call may give.
unfoldable pub IsShown : (max_len : ℕ) → Option Bytes → Type 0
IsShown max_len none = Unit
IsShown max_len (some t) = (0 < length t) × (length t < max_len) × All IsAscii t

shown-IsAscii : (c : ℕ) → IsAscii (shown c)
unfolding shown
shown-IsAscii c = (ground arith, ground arith)

length-narrow : (n room : ℕ) (wbuf : Bytes) → length (narrow n room wbuf) ≤ room
unfolding narrow
length-narrow zero room wbuf = omega arith
length-narrow (suc n) room wbuf = ground (arith, length-narrow n (room - 1) (drop 2 wbuf))

narrow-All : (n room : ℕ) (wbuf : Bytes) → All IsAscii (narrow n room wbuf)
unfolding narrow
narrow-All zero room wbuf = tt
narrow-All (suc n) room wbuf =
    if-split (All IsAscii) (room == 0 || le (take 2 wbuf) == 0) []
      (shown (le (take 2 wbuf)) ∷ narrow n (room - 1) (drop 2 wbuf)) (λ _. tt)
      (λ _. (shown-IsAscii (le (take 2 wbuf)), narrow-All n (room - 1) (drop 2 wbuf)))

kept-IsShown :
    (max_len : ℕ) (t : Bytes)
    → 2 ≤ max_len
    → length t ≤ max_len - 1
    → All IsAscii t
    → IsShown max_len (if length t == 0 then none else some t)
unfolding IsShown
kept-IsShown max_len t hm hl ha = elim (Bool-cases (length t == 0)) [
  | inl e ↦ rw e tt
  | inr e ↦ rw e (ground (arith, e), omega (arith, hm, hl), ha)
]

none-IsShown : (max_len : ℕ) → IsShown max_len none
unfolding IsShown
none-IsShown max_len = tt

read_units-IsShown :
    (vm : Vm) (header : Bytes) (max_len : ℕ)
    → 2 ≤ max_len
    → IsShown max_len (read_units vm header max_len)
unfolding read_units
read_units-IsShown vm header max_len hm =
    let data_ptr = le (take 8 header) in
    let count = signed32 (le (take 4 (drop 8 header))) in
    elim (Bool-cases
      (ltb_int count (pos 2) || ltb_int (pos 128) count || not (validate_ptr data_ptr))) [
        | inl e ↦ rw e (none-IsShown max_len)
        | inr e ↦ elim (Option-cases (fetch vm data_ptr (nat_of count * 2))) [
          | inl missing ↦ rw (e, missing) (none-IsShown max_len)
          | inr wbuf ↦
              rw (e, wbuf.1)
                (kept-IsShown max_len (narrow (nat_of count) (max_len - 1) wbuf.0) hm
                  (length-narrow (nat_of count) (max_len - 1) wbuf.0)
                  (narrow-All (nat_of count) (max_len - 1) wbuf.0))
        ]
      ]

read_fstring-IsShown :
    (vm : Vm) (fstring_addr max_len : ℕ) → IsShown max_len (read_fstring vm fstring_addr max_len)
unfolding read_fstring
read_fstring-IsShown vm fstring_addr max_len =
    elim (Bool-cases (not (validate_ptr fstring_addr) || ltb max_len 2)) [
      | inl e ↦ rw e (none-IsShown max_len)
      | inr e ↦ elim (Option-cases (fetch vm fstring_addr 16)) [
        | inl missing ↦ rw (e, missing) (none-IsShown max_len)
        | inr header ↦ rw (e, header.1) (read_units-IsShown vm header.0 max_len (ground (arith, e)))
      ]
    ]

-- For any target, a text that `read_fstring` gives is not empty, leaves room for its NUL in the
-- buffer of `max_len` bytes, and has printable ASCII characters only.
pub read_fstring_printable :
    (vm : Vm) (fstring_addr max_len : ℕ) (t : Bytes)
    → read_fstring vm fstring_addr max_len ≡ some t
    → (0 < length t) × (length t < max_len) × All IsAscii t
unfolding IsShown
read_fstring_printable vm fstring_addr max_len t h =
    subst (IsShown max_len) h (read_fstring-IsShown vm fstring_addr max_len)
