-- ===== src/Radar/Meta/Laws.antt =====
-- The caches as bounded maps from actors to metadata.
use perfect_build_radar_touc.Base.{
  ℕ, ◌≤◌, ◌≡◌, inl, inr, refl, Bool, true, false, ◌||◌, List, [], ◌∷◌, ◌++◌, none, some, arith, ltb,
  ◌==◌, if◌then◌else◌, length, length-append, Bool-cases,
}
use perfect_build_radar_touc.Radar.Meta.{Entry, entry_for, find_meta, overwrite, store_meta}

module _ {ℓ} {V : Type ℓ} where
  -- Whether `actor` has an entry.
  unfoldable pub has_actor : List (Entry V) → ℕ → Bool
  has_actor [] actor = false
  has_actor (e ∷ es) actor = if e.actor == actor then true else has_actor es actor

  overwrite-none :
      (es : List (Entry V)) (actor : ℕ) (v : V)
      → has_actor es actor ≡ false
      → overwrite es actor v ≡ none
  unfolding overwrite has_actor
  overwrite-none [] actor v h = refl
  overwrite-none (e ∷ es) actor v h = ground (arith, overwrite-none es actor v)

  -- The entries after an overwrite of an actor that has one.
  overwritten : List (Entry V) → ℕ → V → List (Entry V)
  overwritten [] actor v = []
  overwritten (e ∷ es) actor v =
      if e.actor == actor then entry_for actor v ∷ es else e ∷ overwritten es actor v

  overwrite-some :
      (es : List (Entry V)) (actor : ℕ) (v : V)
      → has_actor es actor ≡ true
      → overwrite es actor v ≡ some (overwritten es actor v)
  unfolding overwrite has_actor overwritten
  overwrite-some [] actor v h = cc
  overwrite-some (e ∷ es) actor v h = ground (arith, overwrite-some es actor v)

  find-overwritten :
      (es : List (Entry V)) (actor other : ℕ) (v : V)
      → has_actor es actor ≡ true
      → find_meta (overwritten es actor v) other
        ≡ (if actor == other then some v else find_meta es other)
  unfolding find_meta overwritten has_actor
  find-overwritten [] actor other v h = cc
  find-overwritten (e ∷ es) actor other v h = ground (arith, find-overwritten es actor other v)

  length-overwritten :
      (es : List (Entry V)) (actor : ℕ) (v : V) → length (overwritten es actor v) ≡ length es
  unfolding overwritten
  length-overwritten [] actor v = refl
  length-overwritten (e ∷ es) actor v = ground (arith, length-overwritten es actor v)

  find-concat :
      (es : List (Entry V)) (actor other : ℕ) (v : V)
      → has_actor es actor ≡ false
      → find_meta (es ++ entry_for actor v ∷ []) other
        ≡ (if actor == other then some v else find_meta es other)
  unfolding find_meta has_actor
  find-concat [] actor other v h = ground arith
  find-concat (e ∷ es) actor other v h = ground (arith, find-concat es actor other v)

  find-absent :
      (es : List (Entry V)) (actor : ℕ) → has_actor es actor ≡ false → find_meta es actor ≡ none
  unfolding find_meta has_actor
  find-absent [] actor h = refl
  find-absent (e ∷ es) actor h = ground (arith, find-absent es actor)

  store_meta_present :
      (size : ℕ) (es : List (Entry V)) (actor : ℕ) (v : V)
      → has_actor es actor ≡ true
      → store_meta size es actor v ≡ overwritten es actor v
  unfolding store_meta
  store_meta_present size es actor v h = rw (overwrite-some es actor v h, store_meta)

  store_meta_absent :
      (size : ℕ) (es : List (Entry V)) (actor : ℕ) (v : V)
      → has_actor es actor ≡ false
      → store_meta size es actor v
        ≡ (if ltb (length es) size then es ++ entry_for actor v ∷ [] else es)
  unfolding store_meta
  store_meta_absent size es actor v h = rw (overwrite-none es actor v h, store_meta)

  -- A lookup after a store gives what was stored for that actor, where the actor has an entry or
  -- there is a place left, and otherwise nothing; every other actor keeps what it had.
  pub find_meta-store_meta :
      (size : ℕ) (es : List (Entry V)) (actor other : ℕ) (v : V)
      → find_meta (store_meta size es actor v) other ≡ (
          if actor == other
          then (if has_actor es actor || ltb (length es) size then some v else none)
          else find_meta es other)
  find_meta-store_meta size es actor other v = elim (Bool-cases (has_actor es actor)) [
    | inl e ↦ rw (store_meta_present size es actor v e, e) (find-overwritten es actor other v e)
    | inr e ↦ elim (Bool-cases (ltb (length es) size)) [
      | inl room ↦
          rw (store_meta_absent size es actor v e, e, room) (find-concat es actor other v e)
      | inr full ↦
          rw (store_meta_absent size es actor v e, e, full) (ground (arith, find-absent es actor e))
    ]
  ]

  -- A store never takes the cache past its size.
  length-store_meta :
      (size : ℕ) (es : List (Entry V)) (actor : ℕ) (v : V)
      → length es ≤ size
      → length (store_meta size es actor v) ≤ size
  length-store_meta size es actor v h = elim (Bool-cases (has_actor es actor)) [
    | inl e ↦
        rw (store_meta_present size es actor v e) (omega (arith, length-overwritten es actor v))
    | inr e ↦ elim (Bool-cases (ltb (length es) size)) [
      | inl room ↦
          rw (store_meta_absent size es actor v e, room)
            (ground (arith, length-append es (entry_for actor v ∷ [])))
      | inr full ↦ rw (store_meta_absent size es actor v e, full) h
    ]
  ]
