-- ===== src/Radar/Text/Tests.antt =====
-- A string of three units, one of them not printable.
use perfect_build_radar_touc.Base.{
  ◌<◌, ◌≡◌, refl, [], ◌∷◌, none, some, ◌==◌, if◌then◌else◌, le, length, All, codes,
}
use perfect_build_radar_touc.Remote.{Vm, read, fetch, validate_ptr}
use perfect_build_radar_touc.Radar.Text.{shown, narrow, read_units, read_fstring}
use perfect_build_radar_touc.Radar.Text.Printable.{IsAscii, read_fstring_printable}

abbrev fstring : Vm
fstring a n =
    if n == 16
    then some (0 ∷ 0x70 ∷ 0 ∷ 0 ∷ 0 ∷ 0 ∷ 0 ∷ 0 ∷ 3 ∷ 0 ∷ 0 ∷ 0 ∷ 4 ∷ 0 ∷ 0 ∷ 0 ∷ [])
    else some (97 ∷ 0 ∷ 0 ∷ 5 ∷ 0 ∷ 0 ∷ [])

read_fstring_runs :
    (read_fstring fstring 0x2000 32 ≡ some (codes "a?"))
    × (read_fstring fstring 0x2000 2 ≡ some (codes "a"))
    × (read_fstring fstring 0x2000 1 ≡ none)
unfolding read_fstring read_units narrow shown fetch read validate_ptr le
read_fstring_runs = (refl, refl, refl)

read_fstring_printable_example :
    (0 < length (codes "a?")) × (length (codes "a?") < 32) × All IsAscii (codes "a?")
read_fstring_printable_example =
    read_fstring_printable fstring 0x2000 32 (codes "a?") read_fstring_runs.0
