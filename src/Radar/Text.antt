-- ===== src/Radar/Text.antt =====
-- `read_fstring` of radar_reader.c: a UTF-16 string of the target as printable ASCII.
pub mod Printable
mod Tests
use perfect_build_radar_touc.Base.{
  ℕ, zero, suc, ◌-◌, ◌*◌, Bool, true, false, not, ◌&&◌, ◌||◌, List, [], ◌∷◌, Option, none, some,
  ltb, leb, ◌==◌, if◌then◌else◌, take, drop, length, Bytes, le, ℤ, pos, signed32, ltb_int, nat_of,
}
use perfect_build_radar_touc.Remote.{Vm, fetch, validate_ptr}

-- A unit as it is shown: '?' for what is not printable.
unfoldable pub shown : ℕ → ℕ
shown c = if leb 32 c && leb c 126 then c else 63

-- The loop over `count` units with `room` left in the buffer, not counting the NUL.
unfoldable pub narrow : (count room : ℕ) → (wbuf : Bytes) → Bytes
narrow zero room wbuf = []
narrow (suc n) room wbuf =
    let c = le (take 2 wbuf) in
    let rest = narrow n (room - 1) (drop 2 wbuf) in
    if room == 0 || c == 0 then [] else shown c ∷ rest

-- Nothing stands for `false`. The count is at most 128, so the units fit `wbuf`.
unfoldable pub read_units : Vm → (header : Bytes) → (max_len : ℕ) → Option Bytes
read_units vm header max_len =
    let data_ptr = le (take 8 header) in
    let count = signed32 (le (take 4 (drop 8 header))) in
    if ltb_int count (pos 2) || ltb_int (pos 128) count || not (validate_ptr data_ptr)
    then none
    else elim (fetch vm data_ptr (nat_of count * 2)) [
      | none ↦ none
      | some wbuf ↦
          let text = narrow (nat_of count) (max_len - 1) wbuf in
          if length text == 0 then none else some text
    ]

unfoldable pub read_fstring : Vm → (fstring_addr max_len : ℕ) → Option Bytes
read_fstring vm fstring_addr max_len =
    if not (validate_ptr fstring_addr) || ltb max_len 2
    then none
    else elim (fetch vm fstring_addr 16) [
      | none ↦ none
      | some header ↦ read_units vm header max_len
    ]
