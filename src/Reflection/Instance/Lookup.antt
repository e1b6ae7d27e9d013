-- ===== src/Reflection/Instance/Lookup.antt =====
-- What a context remembers of the lookup, and the functions that resolve names.
use perfect_build_radar_touc.Base.{
  ℕ, ◌%◌, ◌≡◌, refl, inl, inr, not, ◌&&◌, ◌||◌, Option, none, arith, ◌==◌, if◌then◌else◌, if-split,
  length, Bytes, add64, ℤ, pos, ltb_int, nat_of, Bool-cases, Option-cases,
}
use perfect_build_radar_touc.Remote.{Vm, read_i32, validate_ptr}
use perfect_build_radar_touc.Reflection.{Ctx}
use perfect_build_radar_touc.Reflection.Names.{
  name_cache_size, is_index, cached_name, fresh_name, remember_name, resolve_index, resolve_name,
  resolve_object_name,
}

-- The same lookup, meta-class and object array.
unfoldable pub SameLookup : Ctx → Ctx → Type 0
SameLookup ctx ctx' =
    (ctx'.lookup_keys ≡ ctx.lookup_keys)
    × (ctx'.lookup_matches ≡ ctx.lookup_matches)
    × (ctx'.lookup_class ≡ ctx.lookup_class)
    × (ctx'.lookup_name ≡ ctx.lookup_name)

pub same-SameLookup : (ctx : Ctx) → SameLookup ctx ctx
unfolding SameLookup
same-SameLookup ctx = (refl, refl, refl, refl)

fresh_name-SameLookup :
    (vm : Vm) (ctx : Ctx) (n max : ℕ) → SameLookup ctx (fresh_name vm ctx n max).1
unfolding fresh_name cached_name SameLookup
fresh_name-SameLookup vm ctx n max = (ground arith, ground arith, ground arith, ground arith)

remember_name-SameLookup :
    (ctx ctx' : Ctx) (n : ℕ) (name : Bytes)
    → SameLookup ctx ctx'
    → SameLookup ctx (remember_name ctx' n name)
unfolding SameLookup remember_name
remember_name-SameLookup ctx ctx' n name h = h

-- The lookup of a result.
abbrev Keeps : Ctx → Option Bytes × Ctx → Type 0
Keeps ctx r = SameLookup ctx r.1

resolve_index-SameLookup :
    (vm : Vm) (ctx : Ctx) (n : ℕ) (number : ℤ) (max : ℕ)
    → SameLookup ctx (resolve_index vm ctx n number max).1
unfolding resolve_index
resolve_index-SameLookup vm ctx n number max =
    let slot = ctx.name_cache (n % name_cache_size) in
    let fresh = fresh_name-SameLookup vm ctx n max in
    elim (Bool-cases (is_index slot.comp_index n && not (length slot.name == 0))) [
      | inl cached ↦ rw cached (same-SameLookup ctx)
      | inr miss ↦ elim (Option-cases (fresh_name vm ctx n max).0) [
        | inl e ↦ rw (miss, e) fresh
        | inr name ↦ rw (miss, name.1) (remember_name-SameLookup ctx _ n name.0 fresh)
      ]
    ]

resolve_name-SameLookup :
    (vm : Vm) (ctx : Ctx) (fname_addr max : ℕ) → Keeps ctx (resolve_name vm ctx fname_addr max)
unfolding resolve_name
resolve_name-SameLookup vm ctx fname_addr max =
    let index = read_i32 vm fname_addr in
    let number = read_i32 vm (add64 fname_addr 4) in
    let found = resolve_index vm ctx (nat_of index.0) (if number.1 then number.0 else pos 0) max in
    if-split (Keeps ctx) (max == 0 || not (validate_ptr fname_addr)) (none, ctx)
      (if not index.1 || ltb_int index.0 (pos 0) then (none, ctx) else found)
      (λ _. same-SameLookup ctx)
      (λ _.
        if-split (Keeps ctx) (not index.1 || ltb_int index.0 (pos 0)) (none, ctx) found
          (λ _. same-SameLookup ctx) (λ _. resolve_index-SameLookup vm ctx (nat_of index.0) _ max))

pub resolve_object_name-SameLookup :
    (vm : Vm) (ctx : Ctx) (obj max : ℕ) → SameLookup ctx (resolve_object_name vm ctx obj max).1
unfolding resolve_object_name
resolve_object_name-SameLookup vm ctx obj max =
    if-split (Keeps ctx) (validate_ptr obj) (resolve_name vm ctx (add64 obj 0x18) max) (none, ctx)
      (λ _. resolve_name-SameLookup vm ctx (add64 obj 0x18) max) (λ _. same-SameLookup ctx)
