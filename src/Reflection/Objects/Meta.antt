-- ===== src/Reflection/Objects/Meta.antt =====
-- The meta-class that is found, and the objects array.
use perfect_build_radar_touc.Base.{
  ℕ, zero, suc, ◌+◌, ◌<◌, ◌≡◌, refl, ◌⊎◌, inl, inr, Bool, true, not, Option, none, some, arith,
  ◌==◌, if◌then◌else◌, if-split, add64, ℤ, pos, negsuc, nat_of, Bool-cases, Option-cases,
}
use perfect_build_radar_touc.Remote.{Vm, read_ptr, read_i32, validate_ptr}
use perfect_build_radar_touc.Reflection.{Ctx}
use perfect_build_radar_touc.Reflection.Names.{resolve_object_name}
use perfect_build_radar_touc.Reflection.Names.Cache.{IsCached, resolve_object_name-IsCached}
use perfect_build_radar_touc.Reflection.Objects.{
  Objects, is_class_name, usable, read_object_from_array, get_objects_info, meta_class_of,
  scan_objects, find_uclass_class,
}

-- An objects pointer that passes the check, and a positive count.
unfoldable pub IsUsable : Option Objects → Type 0
IsUsable none = Unit
IsUsable (some o) = (validate_ptr o.ptr ≡ true) × (0 < o.count)

usable-IsUsable :
    (ptr : ℕ) (count : ℤ × Bool)
    → usable ptr count ≡ true
    → IsUsable (some (record { ptr = ptr; count = nat_of count.0 }))
unfolding IsUsable usable
usable-IsUsable ptr (pos n, ok) h = (ground (arith, h), ground (arith, h))
usable-IsUsable ptr (negsuc n, ok) h = absurd (ground (arith, h))

last-IsUsable :
    (ptr : ℕ) → validate_ptr ptr ≡ true → IsUsable (some (record { ptr = ptr; count = 100000 }))
unfolding IsUsable
last-IsUsable ptr h = (h, omega arith)

none-IsUsable : IsUsable none
unfolding IsUsable
none-IsUsable = tt

abbrev found : ℕ → ℤ × Bool → Option Objects
found ptr count = some (record { ptr = ptr; count = nat_of count.0 })

-- Whatever the target holds, an objects pointer that `get_objects_info` gives passes the pointer
-- check, and the number of objects is positive.
pub get_objects_info-IsUsable : (vm : Vm) (at : ℕ) → IsUsable (get_objects_info vm at)
unfolding get_objects_info
get_objects_info-IsUsable vm at =
    let chunked = add64 at 0x10 in
    let first = read_ptr vm chunked in
    let first_count = read_i32 vm (add64 chunked 0x14) in
    let third = read_ptr vm (add64 at 0x10) in
    let third_count = read_i32 vm (add64 at 0x1c) in
    let last = read_ptr vm at in
    let last_count = read_i32 vm (add64 at 0x14) in
    let guessed : Option Objects =
      if validate_ptr last then some (record { ptr = last; count = 100000 }) else none in
    let fourth : Option Objects =
      if usable last last_count then found last last_count else guessed in
    let third_on : Option Objects =
      if usable third third_count then found third third_count else fourth in
    if-split IsUsable (usable first first_count) (found first first_count)
      (if usable first first_count then found first first_count else third_on)
      (usable-IsUsable first first_count)
      (λ _.
        if-split IsUsable (usable first first_count) (found first first_count) third_on
          (usable-IsUsable first first_count)
          (λ _.
            if-split IsUsable (usable third third_count) (found third third_count) fourth
              (usable-IsUsable third third_count)
              (λ _.
                if-split IsUsable (usable last last_count) (found last last_count) guessed
                  (usable-IsUsable last last_count)
                  (λ _.
                    if-split IsUsable (validate_ptr last)
                      (some (record { ptr = last; count = 100000 })) none (last-IsUsable last)
                      (λ _. none-IsUsable)))))

-- A pointer that is 0 or passes the check, and a cache as it should be.
unfoldable pub IsMeta : ℕ × Ctx → Type 0
IsMeta r = ((r.0 ≡ 0) ⊎ (validate_ptr r.0 ≡ true)) × IsCached r.1

resolved-validate_ptr :
    (vm : Vm) (ctx : Ctx) (obj max : ℕ)
    → is_class_name (resolve_object_name vm ctx obj max).0 ≡ true
    → validate_ptr obj ≡ true
unfolding resolve_object_name
resolved-validate_ptr vm ctx obj max h = elim (Bool-cases (validate_ptr obj)) [
  | inl e ↦ e
  | inr e ↦ absurd (ground (arith, rw (e, resolve_object_name) at h))
]

nothing-IsMeta : (ctx : Ctx) → IsCached ctx → IsMeta (0, ctx)
unfolding IsMeta
nothing-IsMeta ctx h = (inl refl, h)

found-IsMeta : (obj : ℕ) (ctx : Ctx) → validate_ptr obj ≡ true → IsCached ctx → IsMeta (obj, ctx)
unfolding IsMeta
found-IsMeta obj ctx hv h = (inr hv, h)

meta_class_of-IsMeta :
    (vm : Vm) (ctx : Ctx) (obj : ℕ)
    → validate_ptr obj ≡ true
    → IsCached ctx
    → IsMeta (meta_class_of vm ctx obj)
unfolding meta_class_of
meta_class_of-IsMeta vm ctx obj hv h =
    let cls = read_ptr vm (add64 obj 0x10) in
    let named = resolve_object_name vm ctx obj 256 in
    let cached = (resolve_object_name-IsCached vm ctx obj 256 h).1 in
    let cls_named = resolve_object_name vm named.1 cls 256 in
    let cls_cached = (resolve_object_name-IsCached vm named.1 cls 256 cached).1 in
    let by_name : ℕ × Ctx =
      if is_class_name cls_named.0 then (cls, cls_named.1) else (0, cls_named.1) in
    if-split IsMeta (not (is_class_name named.0)) (0, named.1)
      (if cls == obj then (obj, named.1) else by_name) (λ _. nothing-IsMeta named.1 cached)
      (λ _.
        if-split IsMeta (cls == obj) (obj, named.1) by_name
          (λ _. found-IsMeta obj named.1 hv cached)
          (λ _.
            if-split IsMeta (is_class_name cls_named.0) (cls, cls_named.1) (0, cls_named.1)
              (λ e.
                found-IsMeta cls cls_named.1 (resolved-validate_ptr vm named.1 cls 256 e)
                  cls_cached)
              (λ _. nothing-IsMeta cls_named.1 cls_cached)))

meta-IsCached : (r : ℕ × Ctx) → IsMeta r → IsCached r.1
unfolding IsMeta
meta-IsCached r h = h.1

scan_objects-IsMeta :
    (vm : Vm) (objects_ptr fuel i : ℕ) (ctx : Ctx)
    → IsCached ctx
    → IsMeta (scan_objects vm objects_ptr fuel i ctx)
unfolding scan_objects
scan_objects-IsMeta vm objects_ptr zero i ctx h = nothing-IsMeta ctx h
scan_objects-IsMeta vm objects_ptr (suc fuel) i ctx h =
    let obj = read_object_from_array vm objects_ptr i in
    let found = meta_class_of vm ctx obj in
    let passed = scan_objects vm objects_ptr fuel (i + 1) ctx in
    let rest = scan_objects vm objects_ptr fuel (i + 1) found.1 in
    if-split IsMeta (not (validate_ptr obj)) passed (if found.0 == 0 then rest else found)
      (λ _. scan_objects-IsMeta vm objects_ptr fuel (i + 1) ctx h)
      (λ e.
        let good = meta_class_of-IsMeta vm ctx obj (ground (arith, e)) h in
        if-split IsMeta (found.0 == 0) rest found
          (λ _. scan_objects-IsMeta vm objects_ptr fuel (i + 1) found.1 (meta-IsCached found good))
          (λ _. good))

-- Whatever the target holds, `find_uclass_class` gives 0 or an address that passes the pointer
-- check, and leaves the name cache as `ue4r_resolve_name` leaves it.
pub find_uclass_class-validate_ptr :
    (vm : Vm) (ctx : Ctx)
    → IsCached ctx
    → (((find_uclass_class vm ctx).0 ≡ 0) ⊎ (validate_ptr (find_uclass_class vm ctx).0 ≡ true))
      × IsCached (find_uclass_class vm ctx).1
unfolding find_uclass_class IsMeta
find_uclass_class-validate_ptr vm ctx h =
    elim (Option-cases (get_objects_info vm ctx.guobjectarray)) [
      | inl e ↦ rw (e, find_uclass_class) (nothing-IsMeta ctx h)
      | inr o ↦ rw (o.1, find_uclass_class) (scan_objects-IsMeta vm o.0.ptr _ 0 ctx h)
    ]
