-- ===== src/Reflection/Instance/Repeat.antt =====
-- The calls of a lookup whose class is known, one after another.
use perfect_build_radar_touc.Base.{
  ℕ, zero, suc, ◌+◌, ◌-◌, ◌*◌, ◌<◌, ◌≤◌, ◌≡◌, ◌≢◌, refl, ap, ◌⊎◌, inl, inr, min, true, false, not,
  none, some, arith, ltb, leb, ◌==◌, if◌then◌else◌, Bytes, add64, ℤ, pos, negsuc, Bool-cases,
}
use perfect_build_radar_touc.Remote.{Vm, fetch}
use perfect_build_radar_touc.Reflection.{Ctx}
use perfect_build_radar_touc.Reflection.Objects.{Objects, get_objects_info}
use perfect_build_radar_touc.Reflection.Classes.{max_objects}
use perfect_build_radar_touc.Reflection.Instance.{
  Batch, budget, search, search_batch, find_from, find_instance,
}
use perfect_build_radar_touc.Reflection.Instance.Progress.{IsKnown, Went, search-Went}

-- At most `calls` calls, up to the first that finds an object or ends the scan.
unfoldable pub lookups : Vm → Bytes → (calls : ℕ) → ℤ → Ctx → ℕ × ℤ × Ctx
lookups vm name zero cursor ctx = (0, cursor, ctx)
lookups vm name (suc calls) (negsuc n) ctx = (0, negsuc n, ctx)
lookups vm name (suc calls) (pos n) ctx =
    let r = find_instance vm ctx name (pos n) in
    let rest = lookups vm name calls r.1 r.2 in if r.0 == 0 then rest else r

-- An object, the end of the array, or 512 objects further on.
unfoldable pub Called : Bytes → (at count cursor : ℕ) → ℕ × ℤ × Ctx → Type 0
Called name at count cursor r =
    (r.0 ≢ 0)
    ⊎ ((r.0 ≡ 0)
        × ((r.1 ≡ negsuc 0)
            ⊎ ((r.1 ≡ pos (cursor + 512)) × (cursor + 512 < count) × IsKnown name at r.2)))

result-Called :
    (name : Bytes) (at count cursor : ℕ) (r : ℕ × ℕ × Ctx)
    → Went name at count cursor budget r
    → Called name at count cursor (
        if not (r.0 == 0)
        then (r.0, pos r.1, r.2)
        else if leb count r.1
        then (0, negsuc 0, r.2)
        else (0, pos r.1, r.2))
unfolding Went Called
result-Called name at count cursor r (inl h) =
    let found : (r.0 == 0) ≡ false = ground (arith, h) in rw found (inl h)
result-Called name at count cursor r (inr h) =
    let none_here : (r.0 == 0) ≡ true = ground (arith, h.0) in
    elim (Bool-cases (leb count r.1)) [
      | inl e ↦ rw (none_here, e) (inr (refl, inl refl))
      | inr e ↦
          rw (none_here, e)
            (inr (refl, inr (ap pos (ground (arith, h.1, e)), ground (arith, h.1, e), h.2)))
    ]

find_instance-Called :
    (vm : Vm) (name : Bytes) (at : ℕ) (objects : Objects) (cursor : ℕ) (ctx : Ctx)
    → get_objects_info vm at ≡ some objects
    → objects.count ≤ max_objects
    → cursor ≤ objects.count
    → IsKnown name at ctx
    → Called name at objects.count cursor (find_instance vm ctx name (pos cursor))
unfolding find_instance find_from search_batch IsKnown
find_instance-Called vm name at objects cursor ctx ho hm hc h =
    let cap : ltb max_objects objects.count ≡ false = ground (arith, hm) in
    let batch : Batch = record {
      objects = objects.ptr;
      count = objects.count;
      start = cursor;
      items =
          if ltb cursor objects.count
          then fetch vm (add64 objects.ptr (cursor * 24)) (min (objects.count - cursor) 512 * 24)
          else none;
    } in
    rw (h.1, h.3, ho, cap, h.2, find_from)
      (result-Called name at objects.count cursor (search vm name batch budget cursor ctx)
        (search-Went vm name at batch budget cursor ctx hc h))

-- An object that is found, or the end.
unfoldable pub IsEnd : ℕ × ℤ × Ctx → Type 0
IsEnd r = (r.0 ≢ 0) ⊎ (r.1 ≡ negsuc 0)

found-IsEnd : (r : ℕ × ℤ × Ctx) → r.0 ≢ 0 → IsEnd r
unfolding IsEnd
found-IsEnd r h = inl h

over-IsEnd :
    (vm : Vm) (name : Bytes) (calls : ℕ) (ctx : Ctx) → IsEnd (lookups vm name calls (negsuc 0) ctx)
unfolding IsEnd lookups
over-IsEnd vm name zero ctx = inr refl
over-IsEnd vm name (suc calls) ctx = inr refl

continued :
    (vm : Vm) (name : Bytes) (at count calls cursor : ℕ) (r : ℕ × ℤ × Ctx)
    → Called name at count cursor r
    → ((ctx : Ctx)
        → cursor + 512 < count
        → IsKnown name at ctx
        → IsEnd (lookups vm name calls (pos (cursor + 512)) ctx))
    → IsEnd (if r.0 == 0 then lookups vm name calls r.1 r.2 else r)
unfolding Called
continued vm name at count calls cursor r (inl h) hr =
    let found : (r.0 == 0) ≡ false = ground (arith, h) in rw found (found-IsEnd r h)
continued vm name at count calls cursor r (inr h) hr =
    let none_here : (r.0 == 0) ≡ true = ground (arith, h.0) in
    elim h.1 [
      | inl e ↦ rw (none_here, e) (over-IsEnd vm name calls r.2)
      | inr e ↦ rw (none_here, e.0) (hr r.2 e.1 e.2)
    ]

-- Once the class of a name is known, and while the object array stays, calls of
-- `ue4r_find_instance` with that name, one after another from a cursor within the array of at most
-- 500000 objects, come to an object or to the end, which the cursor -1 stands for, when there is
-- a call for every 512 objects that are left and one more.
pub lookups-ends :
    (vm : Vm) (name : Bytes) (at : ℕ) (objects : Objects) (calls cursor : ℕ) (ctx : Ctx)
    → get_objects_info vm at ≡ some objects
    → objects.count ≤ max_objects
    → cursor ≤ objects.count
    → objects.count < cursor + 512 * calls
    → IsKnown name at ctx
    → ((lookups vm name calls (pos cursor) ctx).0 ≢ 0)
      ⊎ ((lookups vm name calls (pos cursor) ctx).1 ≡ negsuc 0)
unfolding lookups IsEnd
lookups-ends vm name at objects zero cursor ctx ho hm hc hn h = absurd (omega (arith, hc, hn))
lookups-ends vm name at objects (suc calls) cursor ctx ho hm hc hn h =
    let r = find_instance vm ctx name (pos cursor) in
    continued vm name at objects.count calls cursor r
      (find_instance-Called vm name at objects cursor ctx ho hm hc h)
      (λ ctx' hc' h'.
        lookups-ends vm name at objects calls (cursor + 512) ctx' ho hm (omega (arith, hc'))
          (omega (arith, hn)) h')
