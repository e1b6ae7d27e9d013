-- ===== src/Reflection/Classes/Stream.antt =====
-- The streaming walk against the one that makes a list.
use perfect_build_radar_touc.Base.{
  ℕ, zero, suc, ◌+◌, ◌-◌, ◌/◌, ◌≡◌, refl, ap, ◌∙◌, inl, inr, min, List, [], ◌∷◌, ◌++◌, Option, none,
  some, arith, ltb, length, length-append, ℤ, pos, Bool-cases, Option-cases,
}
use perfect_build_radar_touc.Remote.{Vm}
use perfect_build_radar_touc.Json.{Class}
use perfect_build_radar_touc.Reflection.{Ctx}
use perfect_build_radar_touc.Reflection.Objects.{Objects, get_objects_info}
use perfect_build_radar_touc.Reflection.Classes.Visit.{visit}
use perfect_build_radar_touc.Reflection.Classes.{
  max_objects, batch_size, add_class, batch_objects, walk_objects, walk_batches, walk_classes,
  iterate_objects, iterate_batches, iterate_classes,
}

-- What calls of `cb` on the classes of a list, in their order, make of a state.
unfoldable pub called {ℓ} : {S : Type ℓ} → (S → Class → S) → S → List Class → S
called cb s [] = s
called cb s (c ∷ cs) = called cb (cb s c) cs

-- What the stream makes of a walk: the state, and the classes counted.
unfoldable pub streamed {ℓ} :
    {S : Type ℓ} → (S → Class → S) → S → ℕ → Option (List Class × Ctx) → Option (S × ℕ × Ctx)
streamed cb s n none = none
streamed cb s n (some r) = some (called cb s r.0, n + length r.0, r.1)

called-append {ℓ} :
    {S : Type ℓ} (cb : S → Class → S) (s : S) (xs ys : List Class)
    → called cb s (xs ++ ys) ≡ called cb (called cb s xs) ys
unfolding called
called-append cb s [] ys = refl
called-append cb s (x ∷ xs) ys = called-append cb (cb s x) xs ys

module _ {ℓ} {S : Type ℓ} (vm : Vm) (cb : S → Class → S) where
  streamed-nil : (s : S) (n : ℕ) (ctx : Ctx) → some (s, n, ctx) ≡ streamed cb s n (some ([], ctx))
  unfolding streamed called
  streamed-nil s n ctx = ap (λ (k : ℕ). some (s, k, ctx)) (omega arith)

  streamed-none : (s : S) (n : ℕ) → none ≡ streamed cb s n none
  unfolding streamed
  streamed-none s n = refl

  -- One object: `rest` and `walked` are what the two walks make of the objects behind it.
  added-streamed :
      (rest : S → ℕ → Option (S × ℕ × Ctx)) (walked : Option (List Class × Ctx))
      → ((s : S) (n : ℕ) → rest s n ≡ streamed cb s n walked)
      → (found : Option Class) (s : S) (n : ℕ)
      → (elim found [ none ↦ rest s n | some c ↦ rest (cb s c) (n + 1) ])
        ≡ streamed cb s n (elim walked [ none ↦ none | some r ↦ some (add_class found r) ])
  unfolding streamed called
  added-streamed rest none h none s n = h s n
  added-streamed rest (some r) h none s n = h s n
  added-streamed rest none h (some c) s n = h (cb s c) (n + 1)
  added-streamed rest (some r) h (some c) s n =
      h (cb s c) (n + 1) ∙ ap (λ (k : ℕ). some (called cb (cb s c) r.0, k, r.1)) (omega arith)

  iterate_objects-streamed :
      (fuel : ℕ) (objs : List ℕ) (s : S) (n : ℕ) (ctx : Ctx)
      → iterate_objects vm cb fuel objs s n ctx ≡ streamed cb s n (walk_objects vm fuel objs ctx)
  unfolding iterate_objects walk_objects
  iterate_objects-streamed fuel [] s n ctx = streamed-nil s n ctx
  iterate_objects-streamed fuel (obj ∷ objs) s n ctx = elim (Option-cases (visit vm fuel ctx obj)) [
    | inl e ↦ rw (e, iterate_objects, walk_objects) (streamed-none s n)
    | inr seen ↦
        rw (seen.1, iterate_objects, walk_objects)
          (added-streamed (λ s' n'. iterate_objects vm cb fuel objs s' n' seen.0.1)
            (walk_objects vm fuel objs seen.0.1)
            (λ s' n'. iterate_objects-streamed fuel objs s' n' seen.0.1) seen.0.0 s n)
  ]

  -- A batch and the batches behind it.
  appended-streamed :
      (s : S) (n : ℕ) (r : List Class × Ctx) (o : Option (List Class × Ctx))
      → streamed cb (called cb s r.0) (n + length r.0) o
        ≡ streamed cb s n (elim o [ none ↦ none | some rest ↦ some (r.0 ++ rest.0, rest.1) ])
  unfolding streamed
  appended-streamed s n r none = refl
  appended-streamed s n r (some rest) = rw (called-append cb s r.0 rest.0) (
      ap (λ (k : ℕ). some (called cb (called cb s r.0) rest.0, k, rest.1))
        (omega (arith, length-append r.0 rest.0)))

  iterate_batches-streamed :
      (fuel ptr num_elems rounds b : ℕ) (s : S) (n : ℕ) (ctx : Ctx)
      → iterate_batches vm cb fuel ptr num_elems rounds b s n ctx
        ≡ streamed cb s n (walk_batches vm fuel ptr num_elems rounds b ctx)
  unfolding iterate_batches walk_batches streamed
  iterate_batches-streamed fuel ptr num_elems zero b s n ctx = streamed-nil s n ctx
  iterate_batches-streamed fuel ptr num_elems (suc rounds) b s n ctx =
      let objs = batch_objects vm ptr b (min (num_elems - b) batch_size) in
      elim (Bool-cases (ltb b num_elems)) [
        | inr e ↦ rw e (streamed-nil s n ctx)
        | inl e ↦ elim (Option-cases (walk_objects vm fuel objs ctx)) [
          | inl o ↦ rw (e, iterate_objects-streamed fuel objs s n ctx, o) (streamed-none s n)
          | inr r ↦
              rw (e, iterate_objects-streamed fuel objs s n ctx, r.1)
                (iterate_batches-streamed fuel ptr num_elems rounds (b + batch_size)
                    (called cb s r.0.0) (n + length r.0.0) r.0.1
                  ∙ appended-streamed s n r.0
                      (walk_batches vm fuel ptr num_elems rounds (b + batch_size) r.0.1))
        ]
      ]

-- What the stream leaves of a walk that is over, with the number of the classes.
unfoldable pub Streams {ℓ} :
    {S : Type ℓ} → (S → Class → S) → S → Option (List Class × Ctx) → Option (S × ℤ × Ctx) → Type ℓ
Streams cb s none r = r ≡ none
Streams cb s (some walked) r = r ≡ some (called cb s walked.0, pos (length walked.0), walked.1)

counted-Streams {ℓ} :
    {S : Type ℓ} (cb : S → Class → S) (s : S) (walked : Option (List Class × Ctx))
    (iterated : Option (S × ℕ × Ctx))
    → iterated ≡ streamed cb s 0 walked
    → Streams cb s walked (elim iterated [ none ↦ none | some r ↦ some (r.0, pos r.1, r.2) ])
unfolding Streams streamed
counted-Streams cb s none iterated h = rw h refl
counted-Streams cb s (some r) iterated h =
    rw h (ap (λ (k : ℕ). some (called cb s r.0, pos k, r.1)) (omega arith))

-- When there is an objects array, `ue4r_iterate_classes` with any callback calls it on the classes
-- of the list that `ue4r_walk_classes` makes, in its order, gives their number, and leaves the same
-- context; it has a result for exactly the fuel for which the list has one.
pub iterate_classes-Streams {ℓ} :
    {S : Type ℓ} (vm : Vm) (cb : S → Class → S) (fuel : ℕ) (s : S) (ctx : Ctx) (objects : Objects)
    → get_objects_info vm ctx.guobjectarray ≡ some objects
    → Streams cb s (walk_classes vm fuel ctx) (iterate_classes vm cb fuel s ctx)
unfolding walk_classes iterate_classes
iterate_classes-Streams vm cb fuel s ctx objects h =
    let num_elems = min objects.count max_objects in
    let rounds = num_elems / batch_size + 1 in
    rw (h, walk_classes, iterate_classes)
      (counted-Streams cb s (walk_batches vm fuel objects.ptr num_elems rounds 0 ctx)
        (iterate_batches vm cb fuel objects.ptr num_elems rounds 0 s 0 ctx)
        (iterate_batches-streamed vm cb fuel objects.ptr num_elems rounds 0 s 0 ctx))
