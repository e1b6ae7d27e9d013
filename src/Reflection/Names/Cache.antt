-- ===== src/Reflection/Names/Cache.antt =====
-- The name cache: what it holds, and what a name is the second time it is asked for.
use perfect_build_radar_touc.Base.{
  ℕ, ◌-◌, ◌%◌, ◌≤◌, ◌<◌, ◌≡◌, sym, ap, subst, inl, inr, not, ◌&&◌, ◌||◌, ◌++◌, Option, none, some,
  arith, ◌==◌, ==_iff, if◌then◌else◌, if-split, take, length, length-take, Bytes, add64, ℤ, pos,
  ltb_int, nat_of, fit, Bool-cases, Option-cases,
}
use perfect_build_radar_touc.Remote.{Vm, read_i32, validate_ptr}
use perfect_build_radar_touc.Reflection.{Slot, Ctx}
use perfect_build_radar_touc.Reflection.Names.{
  name_cache_size, is_index, suffix, cached_name, fresh_name, remember_name, with_suffix,
  resolve_index, resolve_name, resolve_object_name,
}

-- A slot holds a name that fits it, of an index that belongs there.
unfoldable pub IsSlot : ℕ → Slot → Type 0
IsSlot i s = (length s.name ≤ 59) × ((n : ℕ) → s.comp_index ≡ some n → n % name_cache_size ≡ i)

unfoldable pub IsCached : Ctx → Type 0
IsCached ctx = (i : ℕ) → IsSlot i (ctx.name_cache i)

some-injective : (m n : ℕ) → some m ≡ some n → m ≡ n
some-injective m n h = ground arith

new-IsSlot :
    (n : ℕ) (name : Bytes)
    → IsSlot (n % name_cache_size) (record { comp_index = some n; name = take 59 name })
unfolding IsSlot
new-IsSlot n name = (
  omega (arith, length-take 59 name),
  λ m e. ap (λ k. k % name_cache_size) (sym (some-injective n m e)),
)

remember_name-IsCached :
    (ctx : Ctx) (n : ℕ) (name : Bytes) → IsCached ctx → IsCached (remember_name ctx n name)
unfolding IsCached remember_name
remember_name-IsCached ctx n name h i =
    let slot : Slot = record { comp_index = some n; name = take 59 name } in
    if-split (IsSlot i) (i == n % name_cache_size) slot (ctx.name_cache i)
      (λ e.
        subst (λ j. IsSlot j slot) (sym ((==_iff i (n % name_cache_size)).0 e)) (new-IsSlot n name))
      (λ _. h i)

cached_name-cache :
    (vm : Vm) (ctx : Ctx) (n : ℕ) → (cached_name vm ctx n).1.name_cache ≡ ctx.name_cache
unfolding cached_name
cached_name-cache vm ctx n = ground arith

fresh_name-IsCached :
    (vm : Vm) (ctx : Ctx) (n max : ℕ) → IsCached ctx → IsCached (fresh_name vm ctx n max).1
unfolding fresh_name IsCached
fresh_name-IsCached vm ctx n max h i =
    subst (λ cache. IsSlot i (cache i)) (sym (cached_name-cache vm ctx n)) (h i)

-- What a resolution leaves.
unfoldable pub Resolved : (max : ℕ) → Option Bytes × Ctx → Type 0
Resolved max r = ((t : Bytes) → r.0 ≡ some t → length t < max) × IsCached r.1

unresolved : (max : ℕ) (ctx : Ctx) → IsCached ctx → Resolved max (none, ctx)
unfolding Resolved
unresolved max ctx h = (λ t e. absurd (ground (arith, e)), h)

resolved :
    (max : ℕ) (t : Bytes) (ctx : Ctx)
    → 0 < max
    → IsCached ctx
    → Resolved max (some (fit max t), ctx)
unfolding Resolved
resolved max t ctx hm h = (λ u e. ground (arith, e, length-take (max - 1) t), h)

resolve_index-Resolved :
    (vm : Vm) (ctx : Ctx) (n : ℕ) (number : ℤ) (max : ℕ)
    → 0 < max
    → IsCached ctx
    → Resolved max (resolve_index vm ctx n number max)
unfolding resolve_index
resolve_index-Resolved vm ctx n number max hm h =
    let slot = ctx.name_cache (n % name_cache_size) in
    elim (Bool-cases (is_index slot.comp_index n && not (length slot.name == 0))) [
      | inl hit ↦ rw hit (resolved max (slot.name ++ suffix number) ctx hm h)
      | inr miss ↦ elim (Option-cases (fresh_name vm ctx n max).0) [
        | inl e ↦ rw (miss, e) (unresolved max _ (fresh_name-IsCached vm ctx n max h))
        | inr name ↦
            rw (miss, name.1)
              (resolved max (with_suffix name.0 number) _ hm
                (remember_name-IsCached _ n name.0 (fresh_name-IsCached vm ctx n max h)))
      ]
    ]

resolve_name-Resolved :
    (vm : Vm) (ctx : Ctx) (fname_addr max : ℕ)
    → IsCached ctx
    → Resolved max (resolve_name vm ctx fname_addr max)
unfolding resolve_name
resolve_name-Resolved vm ctx fname_addr max h =
    let index = read_i32 vm fname_addr in
    let number = read_i32 vm (add64 fname_addr 4) in
    let found = resolve_index vm ctx (nat_of index.0) (if number.1 then number.0 else pos 0) max in
    if-split (Resolved max) (max == 0 || not (validate_ptr fname_addr)) (none, ctx)
      (if not index.1 || ltb_int index.0 (pos 0) then (none, ctx) else found)
      (λ _. unresolved max ctx h)
      (λ e.
        if-split (Resolved max) (not index.1 || ltb_int index.0 (pos 0)) (none, ctx) found
          (λ _. unresolved max ctx h)
          (λ _. resolve_index-Resolved vm ctx (nat_of index.0) _ max (ground (arith, e)) h))

-- From a cache whose slots hold at most 59 bytes of a name with an index of that slot,
-- `ue4r_resolve_name` leaves such a cache, and a text that it gives has room for its NUL in the
-- buffer.
pub resolve_name_bounds :
    (vm : Vm) (ctx : Ctx) (fname_addr max : ℕ)
    → IsCached ctx
    → ((t : Bytes) → (resolve_name vm ctx fname_addr max).0 ≡ some t → length t < max)
      × IsCached (resolve_name vm ctx fname_addr max).1
unfolding Resolved
resolve_name_bounds vm ctx fname_addr max h = resolve_name-Resolved vm ctx fname_addr max h

pub resolve_object_name-IsCached :
    (vm : Vm) (ctx : Ctx) (obj max : ℕ)
    → IsCached ctx
    → ((t : Bytes) → (resolve_object_name vm ctx obj max).0 ≡ some t → length t < max)
      × IsCached (resolve_object_name vm ctx obj max).1
unfolding resolve_object_name Resolved
resolve_object_name-IsCached vm ctx obj max h =
    if-split (Resolved max) (validate_ptr obj) (resolve_name vm ctx (add64 obj 0x18) max)
      (none, ctx) (λ _. resolve_name-Resolved vm ctx (add64 obj 0x18) max h)
      (λ _. unresolved max ctx h)
