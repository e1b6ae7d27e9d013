-- ===== src/Reflection/Classes/Ends.antt =====
-- When the walk over the classes ends.
use perfect_build_radar_touc.Base.{
  ℕ, zero, suc, ◌+◌, ◌-◌, ◌*◌, ◌/◌, ◌≤◌, ◌<◌, ◌≡◌, refl, sym, ◌∙◌, inl, inr, min, true, false, not,
  List, [], ◌∷◌, ◌++◌, Option, none, some, arith, ltb, if◌then◌else◌, if-split, add64, Option-cases,
  All, All-if, All-parts,
}
use perfect_build_radar_touc.Remote.{Vm, read_ptr, validate_ptr}
use perfect_build_radar_touc.Json.{Class}
use perfect_build_radar_touc.Reflection.{Ctx}
use perfect_build_radar_touc.Reflection.Path.{build_path_name}
use perfect_build_radar_touc.Reflection.Members.{first_property, read_properties}
use perfect_build_radar_touc.Reflection.Members.Walk.{Ends, read_properties-Ends}
use perfect_build_radar_touc.Reflection.Objects.{get_objects_info}
use perfect_build_radar_touc.Reflection.Classes.Trace.{
  is_class, entered, entered_batches, entered_classes,
}
use perfect_build_radar_touc.Reflection.Classes.Visit.{
  is_uclass, super_of, super_path, read_class, visit,
}
use perfect_build_radar_touc.Reflection.Classes.{
  max_objects, batch_size, add_class, batch_objects, walk_objects, walk_batches, walk_classes,
}

-- There is a result.
abbrev pub HasResult {ℓ} : {A : Type ℓ} → Option A → Type ℓ
HasResult {A = A} o = (a : A) × (o ≡ some a)

then-HasResult {ℓ κ} :
    {A : Type ℓ} {B : Type κ} (o : Option A) (f : A → Option B)
    → HasResult o
    → ((a : A) → o ≡ some a → HasResult (f a))
    → HasResult (elim o [ none ↦ none | some a ↦ f a ])
then-HasResult none f h hf = absurd (ground (arith, h.1))
then-HasResult (some a) f h hf = hf a refl

module _ (vm : Vm) (n fuel : ℕ) (enough : n < fuel) where
  -- The chain of members of an object.
  abbrev MembersEnd : ℕ → Type 0
  MembersEnd obj = Ends vm n (first_property vm obj)

  read_class-Ends : (ctx : Ctx) (obj : ℕ) → MembersEnd obj → HasResult (read_class vm fuel ctx obj)
  unfolding read_class
  read_class-Ends ctx obj ends =
      let path = build_path_name vm ctx obj 512 0 in
      let super = super_path vm path.1 (super_of vm obj) in
      then-HasResult (read_properties vm fuel super.1 obj) _
        (read_properties-Ends vm n fuel super.1 obj ends enough) (λ props _. (_, refl))

  visit-Ends :
      (ctx : Ctx) (obj : ℕ)
      → (is_class vm ctx obj ≡ true → MembersEnd obj)
      → HasResult (visit vm fuel ctx obj)
  unfolding visit is_class
  visit-Ends ctx obj ends =
      let tested = is_uclass vm ctx (read_ptr vm (add64 obj 0x10)) in
      let class_read : Option (Option Class × Ctx) = elim (read_class vm fuel tested.1 obj) [
        | none ↦ none
        | some r ↦ some (some r.0, r.1)
      ] in
      if-split HasResult (not (validate_ptr obj)) (some (none, ctx))
        (if tested.0 then class_read else some (none, tested.1)) (λ _. ((none, ctx), refl))
        (λ e.
          if-split HasResult tested.0 class_read (some (none, tested.1))
            (λ e'.
              then-HasResult (read_class vm fuel tested.1 obj) (λ r. some (some r.0, r.1))
                (read_class-Ends tested.1 obj (ends (ground (arith, e, e'))))
                (λ r _. ((some r.0, r.1), refl)))
            (λ _. ((none, tested.1), refl)))

  walk_objects-Ends :
      (objs : List ℕ) (ctx : Ctx)
      → All MembersEnd (entered vm fuel objs ctx)
      → HasResult (walk_objects vm fuel objs ctx)
  unfolding walk_objects entered
  walk_objects-Ends [] ctx ends = (([], ctx), refl)
  walk_objects-Ends (obj ∷ objs) ctx ends =
      let parts = All-if MembersEnd (is_class vm ctx obj) obj _ ends in
      then-HasResult (visit vm fuel ctx obj) _ (visit-Ends ctx obj parts.0) (λ seen e.
        then-HasResult (walk_objects vm fuel objs seen.1) _
          (walk_objects-Ends objs seen.1 (rw e at (parts.1))) (λ r _. (add_class seen.0 r, refl)))

  walk_batches-Ends :
      (ptr num_elems rounds b : ℕ) (ctx : Ctx)
      → All MembersEnd (entered_batches vm fuel ptr num_elems rounds b ctx)
      → HasResult (walk_batches vm fuel ptr num_elems rounds b ctx)
  unfolding walk_batches entered_batches
  walk_batches-Ends ptr num_elems zero b ctx ends = (([], ctx), refl)
  walk_batches-Ends ptr num_elems (suc rounds) b ctx ends =
      let objs = batch_objects vm ptr b (min (num_elems - b) batch_size) in
      let rest = walk_batches vm fuel ptr num_elems rounds (b + batch_size) in
      let batched : Option (List Class × Ctx) = elim (walk_objects vm fuel objs ctx) [
        | none ↦ none
        | some r ↦ elim (rest r.1) [ none ↦ none | some rest ↦ some (r.0 ++ rest.0, rest.1) ]
      ] in
      if-split HasResult (ltb b num_elems) batched (some ([], ctx))
        (λ e.
          let parts = All-parts MembersEnd (entered vm fuel objs ctx) _ (rw e at ends) in
          then-HasResult (walk_objects vm fuel objs ctx) _ (walk_objects-Ends objs ctx parts.0)
            (λ r e'.
              then-HasResult (rest r.1) _
                (walk_batches-Ends ptr num_elems rounds (b + batch_size) r.1 (rw e' at (parts.1)))
                (λ more _. ((r.0 ++ more.0, more.1), refl))))
        (λ _. (([], ctx), refl))

-- When each object that `ue4r_walk_classes` takes for a class has a chain of at most `n` members,
-- up to the first address that does not pass the pointer check, the walk returns, with `n + 1`
-- rounds for the properties of each class.
pub walk_classes-Ends :
    (vm : Vm) (n fuel : ℕ) (ctx : Ctx)
    → All (λ obj. Ends vm n (first_property vm obj)) (entered_classes vm fuel ctx)
    → n < fuel
    → (r : List Class × Ctx) × (walk_classes vm fuel ctx ≡ some r)
unfolding walk_classes entered_classes
walk_classes-Ends vm n fuel ctx ends enough =
    elim (Option-cases (get_objects_info vm ctx.guobjectarray)) [
      | inl e ↦ rw (e, walk_classes) (([], ctx), refl)
      | inr o ↦
          let num_elems = min o.0.count max_objects in
          rw (o.1, walk_classes)
            (walk_batches-Ends vm n fuel enough o.0.ptr num_elems (num_elems / batch_size + 1) 0 ctx
              (rw (o.1, entered_classes) at ends))
    ]

ended :
    (vm : Vm) (fuel ptr num_elems rounds b : ℕ) (ctx : Ctx)
    → num_elems ≤ b
    → walk_batches vm fuel ptr num_elems rounds b ctx ≡ some ([], ctx)
unfolding walk_batches
ended vm fuel ptr num_elems zero b ctx h = refl
ended vm fuel ptr num_elems (suc rounds) b ctx h =
    let done : ltb b num_elems ≡ false = ground (arith, h) in rw done refl

-- A batch before batches that are the same.
batch-cong :
    (vm : Vm) (fuel ptr num_elems rounds rounds' b : ℕ) (ctx : Ctx)
    → ((ctx' : Ctx)
        → walk_batches vm fuel ptr num_elems rounds (b + batch_size) ctx'
          ≡ walk_batches vm fuel ptr num_elems rounds' (b + batch_size) ctx')
    → walk_batches vm fuel ptr num_elems (suc rounds) b ctx
      ≡ walk_batches vm fuel ptr num_elems (suc rounds') b ctx
unfolding walk_batches
batch-cong vm fuel ptr num_elems rounds rounds' b ctx h =
    let objs = batch_objects vm ptr b (min (num_elems - b) batch_size) in
    elim (Option-cases (walk_objects vm fuel objs ctx)) [
      | inl e ↦ rw e refl
      | inr r ↦ rw (r.1, h r.0.1) refl
    ]

-- Any two numbers of rounds that are enough for the batches give the same.
walk_batches-rounds :
    (vm : Vm) (fuel ptr num_elems rounds rounds' b : ℕ) (ctx : Ctx)
    → num_elems - b ≤ rounds * batch_size
    → num_elems - b ≤ rounds' * batch_size
    → walk_batches vm fuel ptr num_elems rounds b ctx
      ≡ walk_batches vm fuel ptr num_elems rounds' b ctx
walk_batches-rounds vm fuel ptr num_elems zero rounds' b ctx h h' =
    ended vm fuel ptr num_elems zero b ctx (omega (arith, h))
    ∙ sym (ended vm fuel ptr num_elems rounds' b ctx (omega (arith, h)))
walk_batches-rounds vm fuel ptr num_elems (suc rounds) zero b ctx h h' =
    ended vm fuel ptr num_elems (suc rounds) b ctx (omega (arith, h'))
    ∙ sym (ended vm fuel ptr num_elems zero b ctx (omega (arith, h')))
walk_batches-rounds vm fuel ptr num_elems (suc rounds) (suc rounds') b ctx h h' =
    batch-cong vm fuel ptr num_elems rounds rounds' b ctx (λ ctx'.
      walk_batches-rounds vm fuel ptr num_elems rounds rounds' (b + batch_size) ctx'
        (omega (arith, h)) (omega (arith, h')))
