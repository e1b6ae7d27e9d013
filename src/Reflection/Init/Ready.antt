-- ===== src/Reflection/Init/Ready.antt =====
-- The context that `ue4r_init` gives.
use perfect_build_radar_touc.Base.{
  ℕ, zero, suc, ◌+◌, ◌<◌, ◌≤◌, ◌≡◌, refl, ◌∙◌, ◌⊎◌, inl, inr, Bool, true, false, not, Option, none,
  some, arith, ltb, ◌==◌, if◌then◌else◌, if-split, add64, Option-cases,
}
use perfect_build_radar_touc.Remote.{Vm, read_ptr, validate_ptr}
use perfect_build_radar_touc.Reflection.{Ctx}
use perfect_build_radar_touc.Reflection.Names.{resolve_object_name}
use perfect_build_radar_touc.Reflection.Names.Cache.{IsSlot, IsCached}
use perfect_build_radar_touc.Reflection.Objects.{
  is_class_name, read_object_from_array, get_objects_info, meta_class_of, scan_objects,
  find_uclass_class,
}
use perfect_build_radar_touc.Reflection.Objects.Meta.{find_uclass_class-validate_ptr}
use perfect_build_radar_touc.Reflection.Instance.Lookup.{
  SameLookup, same-SameLookup, resolve_object_name-SameLookup,
}
use perfect_build_radar_touc.Reflection.Instance.Sound.{IsLookup, same-IsLookup}
use perfect_build_radar_touc.Reflection.Init.{
  empty_ctx, deref_count_of, chunk_table_of, with_uclass, init,
}

trans-SameLookup : (a b c : Ctx) → SameLookup a b → SameLookup b c → SameLookup a c
unfolding SameLookup
trans-SameLookup a b c h k = (k.0 ∙ h.0, k.1 ∙ h.1, k.2 ∙ h.2, k.3 ∙ h.3)

abbrev Keeps : Ctx → ℕ × Ctx → Type 0
Keeps ctx r = SameLookup ctx r.1

module _ (vm : Vm) where
  meta_class_of-SameLookup : (ctx : Ctx) (obj : ℕ) → Keeps ctx (meta_class_of vm ctx obj)
  unfolding meta_class_of
  meta_class_of-SameLookup ctx obj =
      let cls = read_ptr vm (add64 obj 0x10) in
      let named = resolve_object_name vm ctx obj 256 in
      let same = resolve_object_name-SameLookup vm ctx obj 256 in
      let cls_named = resolve_object_name vm named.1 cls 256 in
      let cls_same =
        trans-SameLookup ctx named.1 cls_named.1 same
          (resolve_object_name-SameLookup vm named.1 cls 256) in
      let by_name : ℕ × Ctx =
        if is_class_name cls_named.0 then (cls, cls_named.1) else (0, cls_named.1) in
      if-split (Keeps ctx) (not (is_class_name named.0)) (0, named.1)
        (if cls == obj then (obj, named.1) else by_name) (λ _. same)
        (λ _.
          if-split (Keeps ctx) (cls == obj) (obj, named.1) by_name (λ _. same)
            (λ _.
              if-split (Keeps ctx) (is_class_name cls_named.0) (cls, cls_named.1) (0, cls_named.1)
                (λ _. cls_same) (λ _. cls_same)))

  scan_objects-SameLookup :
      (ptr fuel i : ℕ) (ctx : Ctx) → Keeps ctx (scan_objects vm ptr fuel i ctx)
  unfolding scan_objects
  scan_objects-SameLookup ptr zero i ctx = same-SameLookup ctx
  scan_objects-SameLookup ptr (suc fuel) i ctx =
      let obj = read_object_from_array vm ptr i in
      let found = meta_class_of vm ctx obj in
      let same = meta_class_of-SameLookup ctx obj in
      let rest = scan_objects vm ptr fuel (i + 1) found.1 in
      if-split (Keeps ctx) (not (validate_ptr obj)) (scan_objects vm ptr fuel (i + 1) ctx)
        (if found.0 == 0 then rest else found) (λ _. scan_objects-SameLookup ptr fuel (i + 1) ctx)
        (λ _.
          if-split (Keeps ctx) (found.0 == 0) rest found
            (λ _.
              trans-SameLookup ctx found.1 rest.1 same
                (scan_objects-SameLookup ptr fuel (i + 1) found.1))
            (λ _. same))

  find_uclass_class-SameLookup : (ctx : Ctx) → Keeps ctx (find_uclass_class vm ctx)
  unfolding find_uclass_class
  find_uclass_class-SameLookup ctx = elim (Option-cases (get_objects_info vm ctx.guobjectarray)) [
    | inl e ↦ rw (e, find_uclass_class) (same-SameLookup ctx)
    | inr o ↦ rw (o.1, find_uclass_class) (scan_objects-SameLookup o.0.ptr _ 0 ctx)
  ]

-- A context without a lookup and with an empty name cache.
unfoldable pub IsNew : Ctx → Type 0
IsNew ctx = IsCached ctx × ((slot : ℕ) → ctx.lookup_keys slot ≡ 0)

new-IsLookup : (vm : Vm) (ctx : Ctx) → IsNew ctx → IsLookup vm ctx
unfolding IsNew IsLookup
new-IsLookup vm ctx h = (λ _. h.1, λ slot k. absurd (k (h.1 slot)))

empty_ctx-IsNew :
    (image_base slide guobj_off gnames_off table : ℕ)
    → IsNew (record (empty_ctx image_base slide guobj_off gnames_off) { gname_chunk_table = table })
unfolding empty_ctx IsNew IsCached IsSlot
empty_ctx-IsNew image_base slide guobj_off gnames_off table =
    (λ i. (omega arith, λ n e. absurd (ground (arith, e))), λ slot. refl)

-- The invariants of a context.
unfoldable pub IsReady : Vm → Ctx → Type 0
IsReady vm ctx =
    IsCached ctx
    × IsLookup vm ctx
    × ((ctx.uclass_class ≡ 0) ⊎ (validate_ptr ctx.uclass_class ≡ true))

uclass-IsLookup :
    (vm : Vm) (ctx : Ctx) (cls : ℕ)
    → IsLookup vm ctx
    → IsLookup vm (record ctx { uclass_class = cls })
unfolding IsLookup
uclass-IsLookup vm ctx cls h = h

with_uclass-IsReady : (vm : Vm) (ctx : Ctx) → IsNew ctx → IsReady vm (with_uclass vm ctx)
unfolding with_uclass IsReady IsNew IsCached
with_uclass-IsReady vm ctx h =
    let found = find_uclass_class-validate_ptr vm ctx h.0 in
    (
      found.1,
      uclass-IsLookup vm (find_uclass_class vm ctx).1 (find_uclass_class vm ctx).0
          (same-IsLookup vm ctx _ (find_uclass_class-SameLookup vm ctx) (new-IsLookup vm ctx h)),
      found.0,
    )

unfoldable pub Initialised :
    Vm → (allocated : Bool) (image_base slide guobj_off gnames_off : ℕ) → Option Ctx → Type 0
Initialised vm allocated image_base slide guobj_off gnames_off none =
    (allocated ≡ false)
    ⊎ (16 < deref_count_of vm (empty_ctx image_base slide guobj_off gnames_off).gnamepool)
Initialised vm allocated image_base slide guobj_off gnames_off (some ctx) =
    IsReady vm ctx
    × (allocated ≡ true)
    × (deref_count_of vm (empty_ctx image_base slide guobj_off gnames_off).gnamepool ≤ 16)

-- Whatever the target holds, `ue4r_init` fails only where `calloc` fails or the name pool asks for
-- more than 16 dereferences. Otherwise, with memory and a pool that asks for no more than 16, it
-- gives a context with the invariants of the name cache and of the lookup, whose meta-class is 0 or
-- an address that passes the pointer check.
pub init-IsReady :
    (vm : Vm) (allocated : Bool) (image_base slide guobj_off gnames_off : ℕ)
    → Initialised vm allocated image_base slide guobj_off gnames_off
        (init vm allocated image_base slide guobj_off gnames_off)
unfolding init Initialised
init-IsReady vm allocated image_base slide guobj_off gnames_off =
    let ctx = empty_ctx image_base slide guobj_off gnames_off in
    let table = chunk_table_of vm ctx.gnamepool in
    let count = deref_count_of vm ctx.gnamepool in
    let made = some (with_uclass vm (record ctx { gname_chunk_table = table })) in
    let IsInit = Initialised vm allocated image_base slide guobj_off gnames_off in
    if-split IsInit (not allocated) none (if ltb 16 count then none else made)
      (λ e. inl (ground (arith, e)))
      (λ e.
        if-split IsInit (ltb 16 count) none made (λ e'. inr (ground (arith, e')))
          (λ e'. (
            with_uclass-IsReady vm (record ctx { gname_chunk_table = table })
                (empty_ctx-IsNew image_base slide guobj_off gnames_off table),
            ground (arith, e),
            ground (arith, e'),
          )))
