-- ===== src/Remote/Tests.antt =====
-- Runs of the readers on small memories, and the theorems at inputs that meet their hypotheses.
use perfect_build_radar_touc.Base.{
  ℕ, ◌+◌, ◌-◌, ◌*◌, ◌<◌, ◌≡◌, ◌↔◌, refl, true, false, [], ◌∷◌, none, some, arith, length,
  if◌then◌else◌, ltb, Bytes, signed32, pos, replicate, le,
}
use perfect_build_radar_touc.Remote.{
  Vm, read_ptr, read_i32, read_u16, read_string, store, validate_ptr,
}
use perfect_build_radar_touc.Remote.Memory.{window}
use perfect_build_radar_touc.Remote.Text.{cut, read_string-eq-cut}
use perfect_build_radar_touc.Remote.Values.{validate_ptr_iff, read_i32_results}

-- 80 letters from address 4096 on, then NULs.
abbrev letters : ℕ → ℕ
letters a = if ltb a 4176 then b'a' else 0

abbrev letters_vm : Vm
letters_vm a n = some (window letters a n)

-- A target in which every read stops short after one byte, and one that has no memory.
abbrev short_vm : Vm
short_vm a n = some (7 ∷ [])

abbrev no_vm : Vm
no_vm a n = none

read_u16_runs : read_u16 letters_vm 4175 ≡ (97, true)
unfolding read_u16
read_u16_runs = refl

read_ptr_runs : read_ptr letters_vm 4174 ≡ 97 + 97 * 256
unfolding read_ptr
read_ptr_runs = refl

read_string_truncates : read_string letters_vm 4172 3 ≡ (true, 97 ∷ 97 ∷ [])
unfolding read_string
read_string_truncates = refl

-- Two chunks: the second one holds the NUL.
read_string_spans : length (read_string letters_vm 4096 256).1 ≡ 80
unfolding read_string
read_string_spans = refl

read_string_fails : read_string no_vm 4096 256 ≡ (false, [])
unfolding read_string
read_string_fails = refl

read_string-eq-cut_example :
    read_string letters_vm 4096 256 ≡ (true, cut (window letters 4096 (256 - 1)))
read_string-eq-cut_example =
    read_string-eq-cut letters_vm letters 4096 256 (omega arith) (λ a n lo hi. refl) (omega arith)

validate_ptr_iff_example :
    (validate_ptr 0x1_0000 ≡ true) ↔ ((0x1000 < 0x1_0000) × (0x1_0000 < 0x0001_0000_0000_0000))
validate_ptr_iff_example = validate_ptr_iff 0x1_0000

read_i32_results_example :
    (short_vm 0 4 ≡ none → read_i32 short_vm 0 ≡ (pos 0, false))
    × ((bs : Bytes)
        → short_vm 0 4 ≡ some bs
        → length bs ≡ 4
        → read_i32 short_vm 0 ≡ (signed32 (le bs), true))
    × ((bs : Bytes)
        → short_vm 0 4 ≡ some bs
        → length bs < 4
        → read_i32 short_vm 0 ≡ (signed32 (le (store bs (replicate 4 0))), false))
read_i32_results_example = read_i32_results short_vm 0

-- A short read leaves a value that is not 0.
read_i32_short : read_i32 short_vm 0 ≡ (pos 7, false)
unfolding read_i32
read_i32_short = refl
