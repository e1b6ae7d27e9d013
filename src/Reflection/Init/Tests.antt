-- ===== src/Reflection/Init/Tests.antt =====
-- A target whose name pool asks for one dereference, and one that asks for too many.
use perfect_build_radar_touc.Base.{
  ℕ, ◌≡◌, refl, true, false, [], ◌∷◌, none, some, ◌==◌, if◌then◌else◌, le,
}
use perfect_build_radar_touc.Remote.{Vm, read, fetch, read_ptr, validate_ptr}
use perfect_build_radar_touc.Reflection.Init.{
  empty_ctx, deref, deref_count_of, chunk_table_of, init,
}
use perfect_build_radar_touc.Reflection.Init.Ready.{Initialised, init-IsReady}

-- The pool's first number is `val0`; the third byte of every pointer is 7.
abbrev pool : ℕ → Vm
pool val0 a n =
    if n == 8
    then some (0 ∷ 0 ∷ 7 ∷ 0 ∷ 0 ∷ 0 ∷ 0 ∷ 0 ∷ [])
    else if n == 4
    then some (val0 ∷ 0 ∷ 0 ∷ 0 ∷ [])
    else none

chunk_table_of_runs : chunk_table_of (pool 103) 0x2000 ≡ 0x70000
unfolding chunk_table_of deref_count_of deref read fetch read_ptr validate_ptr le
chunk_table_of_runs = refl

init_fails :
    (init (pool 160) true 0x1000_0000 0 0 0 ≡ none)
    × (init (pool 103) false 0x1000_0000 0 0 0 ≡ none)
unfolding init empty_ctx deref_count_of read le
init_fails = (refl, refl)

init-IsReady_example :
    Initialised (pool 103) true 0x1000_0000 0 0 0 (init (pool 103) true 0x1000_0000 0 0 0)
init-IsReady_example = init-IsReady (pool 103) true 0x1000_0000 0 0 0
