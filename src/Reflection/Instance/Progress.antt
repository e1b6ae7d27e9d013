-- ===== src/Reflection/Instance/Progress.antt =====
-- How far a search goes once the class of the lookup is known.
use perfect_build_radar_touc.Base.{
  ℕ, zero, suc, ◌+◌, ◌/◌, ◌%◌, ◌<◌, ◌≤◌, ◌≡◌, ◌≢◌, refl, ◌⊎◌, inl, inr, min, Bool, true, false,
  arith, ltb, ◌==◌, ==_iff, if◌then◌else◌, if-split, Bytes, same_text, Bool-cases, Option-cases,
}
use perfect_build_radar_touc.Remote.{Vm, fetch, validate_ptr}
use perfect_build_radar_touc.Reflection.{Ctx}
use perfect_build_radar_touc.Reflection.Instance.{
  ready, Batch, Seen, hit, restarted, passed, header_flags, header_class, lookup_slot,
  remember_match, derives, object_at, with_match, see_instance, see_object, search,
}

-- The lookup of `name` in the object array at `at`, with its class known.
unfoldable pub IsKnown : (name : Bytes) → (at : ℕ) → Ctx → Type 0
IsKnown name at ctx =
    (ctx.lookup_class ≢ 0)
    × (ready ctx ≡ true)
    × (same_text ctx.lookup_name name ≡ true)
    × (ctx.guobjectarray ≡ at)

-- A hit, or on to the next object.
unfoldable pub IsStep : Bytes → ℕ → Seen → Type 0
IsStep name at (hit obj ctx) = obj ≢ 0
IsStep name at (restarted ctx) = ⊥
IsStep name at (passed ctx) = IsKnown name at ctx

-- An object, or `fuel` objects further on in an array of `count`.
unfoldable pub Went : Bytes → (at count cursor fuel : ℕ) → ℕ × ℕ × Ctx → Type 0
Went name at count cursor fuel r =
    (r.0 ≢ 0) ⊎ ((r.0 ≡ 0) × (r.1 ≡ min (cursor + fuel) count) × IsKnown name at r.2)

valid-ne-zero : (obj : ℕ) → validate_ptr obj ≡ true → obj ≢ 0
unfolding validate_ptr
valid-ne-zero obj h z = ground (arith, h, z)

remember-IsKnown :
    (name : Bytes) (at : ℕ) (ctx : Ctx) (cls : ℕ) (match : Bool)
    → IsKnown name at ctx
    → IsKnown name at (remember_match ctx cls match)
unfolding IsKnown remember_match ready
remember-IsKnown name at ctx cls match h = h

known-class :
    (name : Bytes) (at : ℕ) (ctx : Ctx) → IsKnown name at ctx → (ctx.lookup_class == 0) ≡ false
unfolding IsKnown
known-class name at ctx h = elim (Bool-cases (ctx.lookup_class == 0)) [
  | inl e ↦ absurd (h.0 ((==_iff ctx.lookup_class 0).0 e))
  | inr e ↦ e
]

module _ (vm : Vm) (name : Bytes) (at : ℕ) where
  with_match-IsKnown :
      (ctx : Ctx) (cls : ℕ) → IsKnown name at ctx → IsKnown name at (with_match vm ctx cls)
  unfolding with_match
  with_match-IsKnown ctx cls h =
      let match = derives vm ctx.lookup_class 32 cls in
      if-split (IsKnown name at) (ctx.lookup_keys (lookup_slot cls) == cls) ctx
        (remember_match ctx cls match) (λ _. h) (λ _. remember-IsKnown name at ctx cls match h)

  passed-IsStep : (ctx : Ctx) → IsKnown name at ctx → IsStep name at (passed ctx)
  unfolding IsStep
  passed-IsStep ctx h = h

  hit-IsStep : (obj : ℕ) (ctx : Ctx) → obj ≢ 0 → IsStep name at (hit obj ctx)
  unfolding IsStep
  hit-IsStep obj ctx h = h

  see_instance-IsStep :
      (ctx : Ctx) (obj flags cls : ℕ)
      → obj ≢ 0
      → IsKnown name at ctx
      → IsStep name at (see_instance vm ctx obj flags cls)
  unfolding see_instance
  see_instance-IsStep ctx obj flags cls ho h =
      let known = with_match vm ctx cls in
      if-split (IsStep name at) (flags / 16 % 2 == 1) (passed ctx)
        (if known.lookup_matches (lookup_slot cls) then hit obj known else passed known)
        (λ _. passed-IsStep ctx h)
        (λ _.
          if-split (IsStep name at) (known.lookup_matches (lookup_slot cls)) (hit obj known)
            (passed known) (λ _. hit-IsStep obj known ho)
            (λ _. passed-IsStep known (with_match-IsKnown ctx cls h)))

  see_object-IsStep :
      (ctx : Ctx) (obj : ℕ) → IsKnown name at ctx → IsStep name at (see_object vm name ctx obj)
  unfolding see_object
  see_object-IsStep ctx obj h = elim (Bool-cases (validate_ptr obj)) [
    | inr e ↦ rw (e, see_object) (passed-IsStep ctx h)
    | inl e ↦ elim (Option-cases (fetch vm obj 24)) [
      | inl unread ↦ rw (e, unread, see_object) (passed-IsStep ctx h)
      | inr header ↦
          rw (e, header.1, known-class name at ctx h, see_object)
            (see_instance-IsStep ctx obj (header_flags header.0) (header_class header.0)
              (valid-ne-zero obj e) h)
    ]
  ]

  step-Went :
      (count cursor fuel : ℕ) (seen : Seen) (rest : ℕ → Ctx → ℕ × ℕ × Ctx)
      → cursor < count
      → IsStep name at seen
      → ((ctx : Ctx)
          → IsKnown name at ctx
          → Went name at count (cursor + 1) fuel (rest (cursor + 1) ctx))
      → Went name at count cursor (suc fuel) (elim seen [
        | hit o ctx' ↦ (o, cursor + 1, ctx')
        | restarted ctx' ↦ rest 0 ctx'
        | passed ctx' ↦ rest (cursor + 1) ctx'
      ])
  unfolding IsStep Went
  step-Went count cursor fuel (hit o ctx') rest hc h hr = inl h
  step-Went count cursor fuel (restarted ctx') rest hc h hr = absurd h
  step-Went count cursor fuel (passed ctx') rest hc h hr = elim (hr ctx' h) [
    | inl e ↦ inl e
    | inr went ↦ inr (went.0, omega (arith, went.1), went.2)
  ]

  stay-Went :
      (count cursor fuel : ℕ) (ctx : Ctx)
      → cursor ≡ min (cursor + fuel) count
      → IsKnown name at ctx
      → Went name at count cursor fuel (0, cursor, ctx)
  unfolding Went
  stay-Went count cursor fuel ctx hc h = inr (refl, hc, h)

  pub search-Went :
      (batch : Batch) (fuel cursor : ℕ) (ctx : Ctx)
      → cursor ≤ batch.count
      → IsKnown name at ctx
      → Went name at batch.count cursor fuel (search vm name batch fuel cursor ctx)
  unfolding search
  search-Went batch zero cursor ctx hc h = stay-Went batch.count cursor 0 ctx (omega (arith, hc)) h
  search-Went batch (suc fuel) cursor ctx hc h =
      let seen = see_object vm name ctx (object_at vm batch cursor) in
      let rest = search vm name batch fuel in
      if-split (Went name at batch.count cursor (suc fuel)) (ltb cursor batch.count)
        (elim seen [
          | hit o ctx' ↦ (o, cursor + 1, ctx')
          | restarted ctx' ↦ rest 0 ctx'
          | passed ctx' ↦ rest (cursor + 1) ctx'
        ])
        (0, cursor, ctx)
        (λ e.
          step-Went batch.count cursor fuel seen rest (ground (arith, e))
            (see_object-IsStep ctx (object_at vm batch cursor) h)
            (λ ctx' h'. search-Went batch fuel (cursor + 1) ctx' (ground (arith, e)) h'))
        (λ e. stay-Went batch.count cursor (suc fuel) ctx (ground (arith, e, hc)) h)
