-- ===== src/Reflection/Classes/Bounds.antt =====
-- What the classes of a walk are like, and how many there are.
use perfect_build_radar_touc.Base.{
  ℕ, zero, suc, ◌+◌, ◌-◌, ◌/◌, ◌≤◌, ◌≡◌, refl, ap, subst, drop, ◌*◌, inl, inr, min, List, [], ◌∷◌,
  ◌++◌, Option, none, some, arith, ltb, if-split, length, length-append, All, All-append, Bytes,
  add64, Option-cases,
}
use perfect_build_radar_touc.Remote.{Vm, fetch}
use perfect_build_radar_touc.Json.{Class}
use perfect_build_radar_touc.Reflection.{Ctx}
use perfect_build_radar_touc.Reflection.Names.Cache.{IsCached}
use perfect_build_radar_touc.Reflection.Objects.{get_objects_info}
use perfect_build_radar_touc.Reflection.Classes.Visit.{visit}
use perfect_build_radar_touc.Reflection.Classes.{
  max_objects, batch_size, add_class, item_objects, single_objects, batch_objects, walk_objects,
  walk_batches, walk_classes,
}
use perfect_build_radar_touc.Reflection.Classes.Read.{IsClass, IsFound, IsVisit, visit-IsVisit}

-- Classes of a walk over at most `n` objects.
unfoldable pub IsWalk : (n : ℕ) → Option (List Class × Ctx) → Type 0
IsWalk n none = Unit
IsWalk n (some r) = (length r.0 ≤ n) × All IsClass r.0 × IsCached r.1

less-IsWalk : (m n : ℕ) (o : Option (List Class × Ctx)) → m ≤ n → IsWalk (m - 0) o → IsWalk n o
unfolding IsWalk
less-IsWalk m n none hm h = tt
less-IsWalk m n (some r) hm h = (omega (arith, hm, h.0), h.1, h.2)

module _ (vm : Vm) where
  none-IsWalk : (n : ℕ) → IsWalk n none
  unfolding IsWalk
  none-IsWalk n = tt

  empty-IsWalk : (n : ℕ) (ctx : Ctx) → IsCached ctx → IsWalk n (some ([], ctx))
  unfolding IsWalk
  empty-IsWalk n ctx h = (omega arith, tt, h)

  added-IsWalk :
      (n : ℕ) (found : Option Class) (walked : Option (List Class × Ctx))
      → IsFound found
      → IsWalk n walked
      → IsWalk (suc n) (elim walked [ none ↦ none | some r ↦ some (add_class found r) ])
  unfolding IsWalk IsFound
  added-IsWalk n found none hf h = tt
  added-IsWalk n none (some r) hf h = (omega (arith, h.0), h.1, h.2)
  added-IsWalk n (some c) (some r) hf h = (omega (arith, h.0), (hf, h.1), h.2)

  -- One object, and the objects behind it.
  visited-IsWalk :
      (n : ℕ) (o : Option (Option Class × Ctx)) (rest : Ctx → Option (List Class × Ctx))
      → IsVisit o
      → ((ctx : Ctx) → IsCached ctx → IsWalk n (rest ctx))
      → IsWalk (suc n) (elim o [
        | none ↦ none
        | some seen ↦ elim (rest seen.1) [ none ↦ none | some r ↦ some (add_class seen.0 r) ]
      ])
  unfolding IsVisit
  visited-IsWalk n none rest h hr = none-IsWalk (suc n)
  visited-IsWalk n (some seen) rest h hr = added-IsWalk n seen.0 (rest seen.1) h.0 (hr seen.1 h.1)

  walk_objects-IsWalk :
      (fuel : ℕ) (objs : List ℕ) (ctx : Ctx)
      → IsCached ctx
      → IsWalk (length objs) (walk_objects vm fuel objs ctx)
  unfolding walk_objects
  walk_objects-IsWalk fuel [] ctx h = empty-IsWalk 0 ctx h
  walk_objects-IsWalk fuel (obj ∷ objs) ctx h =
      visited-IsWalk (length objs) (visit vm fuel ctx obj) (walk_objects vm fuel objs)
        (visit-IsVisit vm fuel ctx obj h) (walk_objects-IsWalk fuel objs)

  length-item_objects : (items : Bytes) (k : ℕ) → length (item_objects items k) ≡ k
  unfolding item_objects
  length-item_objects items zero = refl
  length-item_objects items (suc k) = ap suc (length-item_objects (drop 24 items) k)

  length-single_objects : (ptr i k : ℕ) → length (single_objects vm ptr i k) ≡ k
  unfolding single_objects
  length-single_objects ptr i zero = refl
  length-single_objects ptr i (suc k) = ap suc (length-single_objects ptr (i + 1) k)

  length-batch_objects : (ptr b k : ℕ) → length (batch_objects vm ptr b k) ≡ k
  unfolding batch_objects
  length-batch_objects ptr b k = elim (Option-cases (fetch vm (add64 ptr (b * 24)) (k * 24))) [
    | inl e ↦ rw (e, batch_objects) (length-single_objects ptr b k)
    | inr items ↦ rw (items.1, batch_objects) (length-item_objects items.0 k)
  ]

  appended-IsWalk :
      (m n k : ℕ) (first : List Class × Ctx) (o : Option (List Class × Ctx))
      → m + n ≤ k
      → IsWalk m (some first)
      → IsWalk n o
      → IsWalk k (elim o [ none ↦ none | some rest ↦ some (first.0 ++ rest.0, rest.1) ])
  unfolding IsWalk
  appended-IsWalk m n k first none hk hf h = tt
  appended-IsWalk m n k first (some r) hk hf h = (
    omega (arith, hk, hf.0, h.0, length-append first.0 r.0),
    All-append IsClass first.0 r.0 hf.1 h.1,
    h.2,
  )

  -- A batch, and the batches behind it.
  batch-IsWalk :
      (m n k : ℕ) (o : Option (List Class × Ctx)) (rest : Ctx → Option (List Class × Ctx))
      → m + n ≤ k
      → IsWalk m o
      → ((ctx : Ctx) → IsCached ctx → IsWalk n (rest ctx))
      → IsWalk k (elim o [
        | none ↦ none
        | some r ↦ elim (rest r.1) [ none ↦ none | some rest ↦ some (r.0 ++ rest.0, rest.1) ]
      ])
  unfolding IsWalk
  batch-IsWalk m n k none rest hk h hr = tt
  batch-IsWalk m n k (some r) rest hk h hr = appended-IsWalk m n k r (rest r.1) hk h (hr r.1 h.2)

  walk_batches-IsWalk :
      (fuel ptr num_elems rounds b : ℕ) (ctx : Ctx)
      → IsCached ctx
      → IsWalk (num_elems - b) (walk_batches vm fuel ptr num_elems rounds b ctx)
  unfolding walk_batches
  walk_batches-IsWalk fuel ptr num_elems zero b ctx h = empty-IsWalk (num_elems - b) ctx h
  walk_batches-IsWalk fuel ptr num_elems (suc rounds) b ctx h =
      let to_read = min (num_elems - b) batch_size in
      let objs = batch_objects vm ptr b to_read in
      let walked : IsWalk (length objs) (walk_objects vm fuel objs ctx) =
        walk_objects-IsWalk fuel objs ctx h in
      let rest = walk_batches vm fuel ptr num_elems rounds (b + batch_size) in
      if-split (IsWalk (num_elems - b)) (ltb b num_elems)
        (elim (walk_objects vm fuel objs ctx) [
          | none ↦ none
          | some r ↦ elim (rest r.1) [ none ↦ none | some rest ↦ some (r.0 ++ rest.0, rest.1) ]
        ])
        (some ([], ctx))
        (λ e.
          batch-IsWalk (length objs) (num_elems - (b + batch_size)) (num_elems - b)
            (walk_objects vm fuel objs ctx) rest
            (ground (arith, e, length-batch_objects ptr b to_read)) walked
            (walk_batches-IsWalk fuel ptr num_elems rounds (b + batch_size)))
        (λ _. empty-IsWalk (num_elems - b) ctx h)

walk_classes-IsWalk :
    (vm : Vm) (fuel : ℕ) (ctx : Ctx) → IsCached ctx → IsWalk max_objects (walk_classes vm fuel ctx)
unfolding walk_classes
walk_classes-IsWalk vm fuel ctx h = elim (Option-cases (get_objects_info vm ctx.guobjectarray)) [
  | inl e ↦ rw (e, walk_classes) (empty-IsWalk vm max_objects ctx h)
  | inr o ↦
      let num_elems = min o.0.count max_objects in
      rw (o.1, walk_classes)
        (less-IsWalk num_elems max_objects
          (walk_batches vm fuel o.0.ptr num_elems (num_elems / batch_size + 1) 0 ctx) (omega arith)
          (walk_batches-IsWalk vm fuel o.0.ptr num_elems (num_elems / batch_size + 1) 0 ctx h))
]

-- Whatever the target holds, a list that `ue4r_walk_classes` returns has at most 500000 classes;
-- the texts of each fit their arrays, its path starts with a slash, or with a dot where the chain
-- of outer objects is too long, and it has at most 1000 properties and 1000 functions whose texts
-- fit theirs. The name cache stays as `ue4r_resolve_name` leaves it.
pub walk_classes-IsClass :
    (vm : Vm) (fuel : ℕ) (ctx : Ctx) (cs : List Class) (ctx' : Ctx)
    → IsCached ctx
    → walk_classes vm fuel ctx ≡ some (cs, ctx')
    → (length cs ≤ max_objects) × All IsClass cs × IsCached ctx'
unfolding IsWalk
walk_classes-IsClass vm fuel ctx cs ctx' h e =
    subst (IsWalk max_objects) e (walk_classes-IsWalk vm fuel ctx h)
