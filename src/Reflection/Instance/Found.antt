-- ===== src/Reflection/Instance/Found.antt =====
-- What `ue4r_find_instance` gives.
use perfect_build_radar_touc.Base.{
  ℕ, zero, suc, ◌+◌, ◌-◌, ◌*◌, ◌≡◌, refl, ◌⊎◌, inl, inr, min, not, none, ltb, leb, ◌==◌,
  if◌then◌else◌, if-split, Bytes, add64, ℤ, pos, negsuc, same_text, Option-cases,
}
use perfect_build_radar_touc.Remote.{Vm, fetch}
use perfect_build_radar_touc.Reflection.{Ctx}
use perfect_build_radar_touc.Reflection.Objects.{get_objects_info}
use perfect_build_radar_touc.Reflection.Classes.{max_objects}
use perfect_build_radar_touc.Reflection.Instance.{
  ready, Batch, budget, Seen, hit, restarted, passed, new_lookup, object_at, see_object, search,
  search_batch, find_from, find_instance,
}
use perfect_build_radar_touc.Reflection.Instance.Sound.{
  IsLookup, IsInstance, IsSeen, new_lookup-IsLookup,
}
use perfect_build_radar_touc.Reflection.Instance.Object.{see_object-IsSeen}

-- What is left of a search.
unfoldable pub IsFound : Vm → ℕ × ℕ × Ctx → Type 0
IsFound vm r = ((r.0 ≡ 0) ⊎ IsInstance vm r.2 r.0) × IsLookup vm r.2

unfoldable pub IsResult : Vm → ℕ × ℤ × Ctx → Type 0
IsResult vm r = ((r.0 ≡ 0) ⊎ IsInstance vm r.2 r.0) × IsLookup vm r.2

module _ (vm : Vm) where
  none-IsFound : (cursor : ℕ) (ctx : Ctx) → IsLookup vm ctx → IsFound vm (0, cursor, ctx)
  unfolding IsFound
  none-IsFound cursor ctx h = (inl refl, h)

  -- An object, and the search behind it.
  seen-IsFound :
      (cursor : ℕ) (seen : Seen) (rest : ℕ → Ctx → ℕ × ℕ × Ctx)
      → IsSeen vm seen
      → ((c : ℕ) (ctx : Ctx) → IsLookup vm ctx → IsFound vm (rest c ctx))
      → IsFound vm (elim seen [
        | hit o ctx' ↦ (o, cursor + 1, ctx')
        | restarted ctx' ↦ rest 0 ctx'
        | passed ctx' ↦ rest (cursor + 1) ctx'
      ])
  unfolding IsSeen IsFound
  seen-IsFound cursor (hit o ctx') rest h hr = (inr h.0, h.1)
  seen-IsFound cursor (restarted ctx') rest h hr = hr 0 ctx' h
  seen-IsFound cursor (passed ctx') rest h hr = hr (cursor + 1) ctx' h

  search-IsFound :
      (name : Bytes) (batch : Batch) (fuel cursor : ℕ) (ctx : Ctx)
      → IsLookup vm ctx
      → IsFound vm (search vm name batch fuel cursor ctx)
  unfolding search
  search-IsFound name batch zero cursor ctx h = none-IsFound cursor ctx h
  search-IsFound name batch (suc fuel) cursor ctx h =
      let obj = object_at vm batch cursor in
      let seen = see_object vm name ctx obj in
      let rest = search vm name batch fuel in
      if-split (IsFound vm) (ltb cursor batch.count)
        (elim seen [
          | hit o ctx' ↦ (o, cursor + 1, ctx')
          | restarted ctx' ↦ rest 0 ctx'
          | passed ctx' ↦ rest (cursor + 1) ctx'
        ])
        (0, cursor, ctx)
        (λ _.
          seen-IsFound cursor seen rest (see_object-IsSeen vm name ctx obj h)
            (search-IsFound name batch fuel))
        (λ _. none-IsFound cursor ctx h)

  nothing-IsResult : (cursor : ℤ) (ctx : Ctx) → IsLookup vm ctx → IsResult vm (0, cursor, ctx)
  unfolding IsResult
  nothing-IsResult cursor ctx h = (inl refl, h)

  IsResult-IsFound :
      (count : ℕ) (r : ℕ × ℕ × Ctx)
      → IsFound vm r
      → IsResult vm (
          if not (r.0 == 0)
          then (r.0, pos r.1, r.2)
          else if leb count r.1
          then (0, negsuc 0, r.2)
          else (0, pos r.1, r.2))
  unfolding IsFound IsResult
  IsResult-IsFound count r h =
      let rest : ℕ × ℤ × Ctx = if leb count r.1 then (0, negsuc 0, r.2) else (0, pos r.1, r.2) in
      if-split (IsResult vm) (not (r.0 == 0)) (r.0, pos r.1, r.2) rest (λ _. h)
        (λ _.
          if-split (IsResult vm) (leb count r.1) (0, negsuc 0, r.2) (0, pos r.1, r.2)
            (λ _. (inl refl, h.1)) (λ _. (inl refl, h.1)))

  -- A search as `ue4r_find_instance` gives it back.
  search_batch-IsFound :
      (name : Bytes) (objects count cursor : ℕ) (ctx : Ctx)
      → IsLookup vm ctx
      → IsResult vm (search_batch vm name objects count cursor ctx)
  unfolding search_batch
  search_batch-IsFound name objects count cursor ctx h =
      let batch : Batch = record {
        objects = objects;
        count = count;
        start = cursor;
        items =
            if ltb cursor count
            then fetch vm (add64 objects (cursor * 24)) (min (count - cursor) 512 * 24)
            else none;
      } in
      let r = search vm name batch budget cursor ctx in
      IsResult-IsFound count r (search-IsFound name batch budget cursor ctx h)

  find_from-IsFound :
      (name : Bytes) (cursor : ℕ) (ctx : Ctx)
      → IsLookup vm ctx
      → IsResult vm (find_from vm name cursor ctx)
  unfolding find_from
  find_from-IsFound name cursor ctx h =
      elim (Option-cases (get_objects_info vm ctx.guobjectarray)) [
        | inl e ↦ rw (e, find_from) (nothing-IsResult (negsuc 0) ctx h)
        | inr found ↦
            let last = search_batch vm name found.0.ptr found.0.count cursor ctx in
            let new = search_batch vm name found.0.ptr found.0.count 0 (new_lookup ctx name) in
            rw (found.1, find_from)
              (if-split (IsResult vm) (ltb max_objects found.0.count) (0, negsuc 0, ctx)
                (if same_text ctx.lookup_name name then last else new)
                (λ _. nothing-IsResult (negsuc 0) ctx h)
                (λ _.
                  if-split (IsResult vm) (same_text ctx.lookup_name name) last new
                    (λ _. search_batch-IsFound name found.0.ptr found.0.count cursor ctx h)
                    (λ _.
                      search_batch-IsFound name found.0.ptr found.0.count 0 (new_lookup ctx name)
                        (new_lookup-IsLookup vm ctx name))))
      ]

-- For any name and cursor, from a lookup whose remembered matches derive from its class,
-- `ue4r_find_instance` leaves such a lookup, also where the name is a new one; and it gives 0 or
-- the address of an object that passes the pointer check, whose header can be read and does not
-- have the flag of a class default object, and whose class is null or reaches the class of the
-- lookup within 32 steps up the chain of super-structs.
pub find_instance-IsInstance :
    (vm : Vm) (ctx : Ctx) (name : Bytes) (cursor : ℤ)
    → IsLookup vm ctx
    → (((find_instance vm ctx name cursor).0 ≡ 0)
        ⊎ IsInstance vm (find_instance vm ctx name cursor).2 (find_instance vm ctx name cursor).0)
      × IsLookup vm (find_instance vm ctx name cursor).2
unfolding find_instance IsResult
find_instance-IsInstance vm ctx name (negsuc cursor) h = nothing-IsResult vm (negsuc cursor) ctx h
find_instance-IsInstance vm ctx name (pos cursor) h =
    if-split (IsResult vm) (ready ctx) (find_from vm name cursor ctx) (0, pos cursor, ctx)
      (λ _. find_from-IsFound vm name cursor ctx h) (λ _. nothing-IsResult vm (pos cursor) ctx h)
