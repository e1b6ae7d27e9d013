-- ===== src/Reflection/Members/Functions.antt =====
-- The functions of a class: their number and their names.
use perfect_build_radar_touc.Base.{
  ℕ, zero, suc, ◌≤◌, ◌<◌, not, List, [], ◌∷◌, arith, if◌then◌else◌, if-split, length, add64, All,
  codes, same_text,
}
use perfect_build_radar_touc.Remote.{Vm, read_ptr, validate_ptr}
use perfect_build_radar_touc.Json.{Function}
use perfect_build_radar_touc.Reflection.{Ctx}
use perfect_build_radar_touc.Reflection.Names.{resolve_object_name}
use perfect_build_radar_touc.Reflection.Names.Cache.{IsCached, resolve_object_name-IsCached}
use perfect_build_radar_touc.Reflection.Path.{name_or}
use perfect_build_radar_touc.Reflection.Members.{read_function, walk_functions}
use perfect_build_radar_touc.Reflection.Members.Bounds.{name_or-lt}

-- A function with a name that fits its array of 256 bytes.
abbrev pub IsFunction : Function → Type 0
IsFunction f = length f.name < 256

-- The functions of a walk of at most `rounds` rounds.
unfoldable pub IsFunctions : ℕ → List Function × Ctx → Type 0
IsFunctions rounds r = (length r.0 ≤ rounds) × All IsFunction r.0 × IsCached r.1

less-IsFunctions :
    (rounds : ℕ) (r : List Function × Ctx) → IsFunctions rounds r → IsFunctions (suc rounds) r
unfolding IsFunctions
less-IsFunctions rounds r h = (omega (arith, h.0), h.1, h.2)

more-IsFunctions :
    (rounds : ℕ) (f : Function) (r : List Function × Ctx)
    → IsFunction f
    → IsFunctions rounds r
    → IsFunctions (suc rounds) (f ∷ r.0, r.1)
unfolding IsFunctions
more-IsFunctions rounds f r hf h = (omega (arith, h.0), (hf, h.1), h.2)

empty-IsFunctions : (rounds : ℕ) (ctx : Ctx) → IsCached ctx → IsFunctions rounds ([], ctx)
unfolding IsFunctions
empty-IsFunctions rounds ctx h = (omega arith, tt, h)

module _ (vm : Vm) where
  read_function-IsFunction :
      (ctx : Ctx) (child : ℕ)
      → IsCached ctx
      → IsFunction (read_function vm ctx child).0 × IsCached (read_function vm ctx child).1
  unfolding read_function
  read_function-IsFunction ctx child h =
      let named = resolve_object_name-IsCached vm ctx child 256 h in
      (name_or-lt (codes "<unknown>") _ (omega arith) named.0, named.1)

  pub walk_functions-IsFunctions :
      (rounds : ℕ) (ctx : Ctx) (child : ℕ)
      → IsCached ctx
      → IsFunctions rounds (walk_functions vm rounds ctx child)
  unfolding walk_functions
  walk_functions-IsFunctions zero ctx child h = empty-IsFunctions zero ctx h
  walk_functions-IsFunctions (suc rounds) ctx child h =
      let child_class = read_ptr vm (add64 child 0x10) in
      let named = resolve_object_name vm ctx child_class 256 in
      let cached = (resolve_object_name-IsCached vm ctx child_class 256 h).1 in
      let f = read_function vm named.1 child in
      let good = read_function-IsFunction named.1 child cached in
      let next = read_ptr vm (add64 child 0x28) in
      let taken = walk_functions vm rounds f.1 next in
      let skipped = walk_functions vm rounds named.1 next in
      let is_function = same_text (name_or [] named.0) (codes "Function") in
      if-split (IsFunctions (suc rounds)) (not (validate_ptr child)) ([], ctx)
        (if is_function then (f.0 ∷ taken.0, taken.1) else skipped)
        (λ _. empty-IsFunctions (suc rounds) ctx h)
        (λ _.
          if-split (IsFunctions (suc rounds)) is_function (f.0 ∷ taken.0, taken.1) skipped
            (λ _.
              more-IsFunctions rounds f.0 taken good.0
                (walk_functions-IsFunctions rounds f.1 next good.1))
            (λ _.
              less-IsFunctions rounds skipped
                (walk_functions-IsFunctions rounds named.1 next cached)))
