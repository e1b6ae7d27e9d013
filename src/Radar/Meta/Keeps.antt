-- ===== src/Radar/Meta/Keeps.antt =====
-- What holds of every value in a cache, and stays so.
use mathlib.Core.Option
use mathlib.Core.Option.{Option}
use perfect_build_radar_touc.Base.{
  ℕ, ◌≡◌, inl, inr, subst, ◌&&◌, List, [], ◌∷◌, ◌++◌, none, some, arith, ◌==◌, ltb, if-split,
  length, All, All-append, Bool-cases, Option-cases,
}
use perfect_build_radar_touc.Radar.Meta.{Entry, entry_for, find_meta, overwrite, store_meta}

module _ {ℓ κ} {V : Type ℓ} (P : V → Type κ) where
  -- The value of an entry.
  unfoldable pub Keeps : Entry V → Type κ
  Keeps e = P e.value

  -- A cache, if there is one.
  unfoldable KeepsAll : Option (List (Entry V)) → Type κ
  KeepsAll none = Unit
  KeepsAll (some cache) = All Keeps cache

  entry-Keeps : (actor : ℕ) (v : V) → P v → Keeps (entry_for actor v)
  unfolding Keeps
  entry-Keeps actor v h = h

  map-KeepsAll :
      (x : Entry V) (o : Option (List (Entry V)))
      → Keeps x
      → KeepsAll o
      → KeepsAll (Option.map (λ rest. x ∷ rest) o)
  unfolding KeepsAll
  map-KeepsAll x none hx h = tt
  map-KeepsAll x (some rest) hx h = (hx, h)

  none-KeepsAll : KeepsAll none
  unfolding KeepsAll
  none-KeepsAll = tt

  some-KeepsAll : (cache : List (Entry V)) → All Keeps cache → KeepsAll (some cache)
  unfolding KeepsAll
  some-KeepsAll cache h = h

  overwrite-KeepsAll :
      (cache : List (Entry V)) (actor : ℕ) (v : V)
      → All Keeps cache
      → P v
      → KeepsAll (overwrite cache actor v)
  unfolding overwrite
  overwrite-KeepsAll [] actor v h hv = none-KeepsAll
  overwrite-KeepsAll (x ∷ cache) actor v h hv =
      if-split KeepsAll (x.actor == actor) (some (entry_for actor v ∷ cache))
        (Option.map (λ rest. x ∷ rest) (overwrite cache actor v))
        (λ _. some-KeepsAll (entry_for actor v ∷ cache) (entry-Keeps actor v hv, h.1))
        (λ _.
          map-KeepsAll x (overwrite cache actor v) h.0 (overwrite-KeepsAll cache actor v h.1 hv))

  pub store_meta-Keeps :
      (size : ℕ) (cache : List (Entry V)) (actor : ℕ) (v : V)
      → All Keeps cache
      → P v
      → All Keeps (store_meta size cache actor v)
  unfolding store_meta KeepsAll
  store_meta-Keeps size cache actor v h hv =
      let good = overwrite-KeepsAll cache actor v h hv in
      elim (Option-cases (overwrite cache actor v)) [
        | inr over ↦ rw (over.1, store_meta) (subst KeepsAll over.1 good)
        | inl absent ↦
            rw (absent, store_meta)
              (if-split (All Keeps) (ltb (length cache) size) (cache ++ entry_for actor v ∷ [])
                cache
                (λ _.
                  All-append Keeps cache (entry_for actor v ∷ []) h (entry-Keeps actor v hv, tt))
                (λ _. h))
      ]

  pub find_meta-Keeps :
      (cache : List (Entry V)) (actor : ℕ) (v : V)
      → All Keeps cache
      → find_meta cache actor ≡ some v
      → P v
  unfolding find_meta Keeps
  find_meta-Keeps [] actor v h e = absurd (ground (arith, e))
  find_meta-Keeps (x ∷ cache) actor v h e = elim (Bool-cases (x.valid && x.actor == actor)) [
    | inl hit ↦ let same : x.value ≡ v = ground (arith, hit, e) in subst P same h.0
    | inr miss ↦ find_meta-Keeps cache actor v h.1 (ground (arith, miss, e))
  ]
