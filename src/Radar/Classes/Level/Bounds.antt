-- ===== src/Radar/Classes/Level/Bounds.antt =====
-- The bounds of the lists that the scan fills.
use perfect_build_radar_touc.Base.{
  ℕ, zero, suc, ◌-◌, ◌+◌, ◌*◌, ◌≤◌, ◌≡◌, refl, sym, inl, inr, Bool, true, false, not, List, [], ◌∷◌,
  ◌++◌, arith, ltb, ◌==◌, if◌then◌else◌, take, drop, length, length-append, Bytes, add64, le, All,
  All-append, Bool-cases, Option-cases, if-split,
}
use mathlib.Core.Bool.{true≢false}
use perfect_build_radar_touc.Remote.{Vm, fetch, validate_ptr}
use perfect_build_radar_touc.Radar.World.{ptr}
use perfect_build_radar_touc.Radar.Classes.{
  ClassType, cls_unknown, cls_ignore, cls_player, cls_vehicle, cls_item, Resolver, class_cache_size,
  classify_class,
}
use perfect_build_radar_touc.Radar.Classes.Cache.{length-classify_class}
use perfect_build_radar_touc.Radar.Classes.Level.{
  Actors, add_actor, place, visit, visit_chunk, visit_chunks, find_actors, scan_persistent_level,
}

-- A pointer that passes the check.
abbrev pub IsPointer : ℕ → Type 0
IsPointer a = validate_ptr a ≡ true

true-of_not : (b : Bool) → not b ≡ false → b ≡ true
true-of_not true h = refl
true-of_not false h = sym h

-- At most `limit` pointers.
unfoldable pub IsActorList : (limit : ℕ) → List ℕ → Type 0
IsActorList limit xs = (length xs ≤ limit) × All IsPointer xs

-- The lists fit the arrays of the source and hold pointers that pass the check.
unfoldable pub IsWellFormed : Actors → Type 0
IsWellFormed s =
    IsActorList 512 s.characters
    × IsActorList 64 s.vehicles
    × IsActorList 256 s.items
    × (length s.classes ≤ class_cache_size)

add_actor-IsActorList :
    (limit : ℕ) (xs : List ℕ) (actor : ℕ)
    → IsPointer actor
    → IsActorList limit xs
    → IsActorList limit (add_actor limit xs actor)
unfolding add_actor IsActorList
add_actor-IsActorList limit xs actor ha h =
    if-split (λ ys. (length ys ≤ limit) × All IsPointer ys) (ltb (length xs) limit)
      (xs ++ actor ∷ []) xs
      (λ room. (
        ground (arith, room, length-append xs (actor ∷ [])),
        All-append IsPointer xs (actor ∷ []) h.1 (ha, tt),
      ))
      (λ _. h)

place-IsWellFormed :
    (t : ClassType) (actor : ℕ) (s : Actors)
    → IsPointer actor
    → IsWellFormed s
    → IsWellFormed (place t actor s)
unfolding place IsWellFormed
place-IsWellFormed cls_unknown actor s ha h = h
place-IsWellFormed cls_ignore actor s ha h = h
place-IsWellFormed cls_player actor s ha h =
    (add_actor-IsActorList 512 s.characters actor ha h.0, h.1, h.2, h.3)
place-IsWellFormed cls_vehicle actor s ha h =
    (h.0, add_actor-IsActorList 64 s.vehicles actor ha h.1, h.2, h.3)
place-IsWellFormed cls_item actor s ha h =
    (h.0, h.1, add_actor-IsActorList 256 s.items actor ha h.2, h.3)

module _ (resolver : Resolver) (vm : Vm) where
  classes-IsWellFormed :
      (s : Actors) (cls actor : ℕ)
      → IsWellFormed s
      → IsWellFormed (record s { classes = (classify_class resolver vm s.classes cls actor).1 })
  unfolding IsWellFormed
  classes-IsWellFormed s cls actor h =
      (h.0, h.1, h.2, length-classify_class resolver vm s.classes cls actor h.3)

  visit-IsWellFormed :
      (actor : ℕ) (s : Actors) → IsWellFormed s → IsWellFormed (visit resolver vm actor s)
  unfolding visit
  visit-IsWellFormed actor s h =
      let cls = ptr vm actor 0x10 in
      let t = classify_class resolver vm s.classes cls actor in
      let placed = place t.0 actor (record s { classes = t.1 }) in
      if-split IsWellFormed (not (validate_ptr actor)) s (if cls == 0 then s else placed) (λ _. h)
        (λ e.
          if-split IsWellFormed (cls == 0) s placed (λ _. h)
            (λ _.
              place-IsWellFormed t.0 actor _ (true-of_not _ e)
                (classes-IsWellFormed s cls actor h)))

  visit_chunk-IsWellFormed :
      (n : ℕ) (chunk : Bytes) (s : Actors)
      → IsWellFormed s
      → IsWellFormed (visit_chunk resolver vm n chunk s)
  unfolding visit_chunk
  visit_chunk-IsWellFormed zero chunk s h = h
  visit_chunk-IsWellFormed (suc n) chunk s h =
      visit_chunk-IsWellFormed n (drop 8 chunk) _ (visit-IsWellFormed (le (take 8 chunk)) s h)

  visit_chunks-IsWellFormed :
      (data_ptr count fuel start : ℕ) (s : Actors)
      → IsWellFormed s
      → IsWellFormed (visit_chunks resolver vm data_ptr count fuel start s)
  unfolding visit_chunks
  visit_chunks-IsWellFormed data_ptr count zero start s h = h
  visit_chunks-IsWellFormed data_ptr count (suc fuel) start s h =
      let chunk_size = if ltb 512 (count - start) then 512 else count - start in
      elim (Bool-cases (ltb start count)) [
        | inr e ↦ rw e h
        | inl e ↦ elim (Option-cases (fetch vm (add64 data_ptr (start * 8)) (chunk_size * 8))) [
          | inl none_read ↦
              rw (e, none_read) (visit_chunks-IsWellFormed data_ptr count fuel (start + 512) s h)
          | inr read ↦
              rw (e, read.1)
                (visit_chunks-IsWellFormed data_ptr count fuel (start + 512) _
                  (visit_chunk-IsWellFormed chunk_size read.0 s h))
        ]
      ]

-- The result of a scan from `s`.
unfoldable pub IsScan : Actors → Bool × Actors → Type 0
IsScan s r = IsWellFormed r.1 × (r.0 ≡ false → r.1 ≡ s)

failed-IsScan : (s : Actors) → IsWellFormed s → IsScan s (false, s)
unfolding IsScan
failed-IsScan s h = (h, λ _. refl)

done-IsScan : (s t : Actors) → IsWellFormed t → IsScan s (true, t)
unfolding IsScan
done-IsScan s t h = (h, λ e. absurd (true≢false e))

cleared-IsWellFormed :
    (s : Actors)
    → IsWellFormed s
    → IsWellFormed (record s { characters = []; vehicles = []; items = [] })
unfolding IsWellFormed IsActorList
cleared-IsWellFormed s h = ((omega arith, tt), (omega arith, tt), (omega arith, tt), h.3)

-- For any target and any name lookup, `scan_persistent_level` keeps the lists within the arrays of
-- 512, 64 and 256, all of their members pass the pointer check, and the class cache stays within
-- its 4096 entries; when it fails, the state is as it was.
pub scan_persistent_level-IsWellFormed :
    (resolver : Resolver) (vm : Vm) (w : ℕ) (s : Actors)
    → IsWellFormed s
    → IsWellFormed (scan_persistent_level resolver vm w s).1
      × ((scan_persistent_level resolver vm w s).0 ≡ false
          → (scan_persistent_level resolver vm w s).1 ≡ s)
unfolding scan_persistent_level IsScan
scan_persistent_level-IsWellFormed resolver vm w s h = elim (Bool-cases (ptr vm w 0x30 == 0)) [
  | inl e ↦ rw e (failed-IsScan s h)
  | inr e ↦ elim (Option-cases (find_actors resolver vm (ptr vm w 0x30) offsets)) [
    | inl missing ↦ rw (e, missing) (failed-IsScan s h)
    | inr a ↦
        rw (e, a.1)
          (if-split (IsScan s) (a.0.0 == 0) (false, s) (true, scanned a.0) (λ _. failed-IsScan s h)
            (λ _. done-IsScan s (scanned a.0) (
              visit_chunks-IsWellFormed resolver vm a.0.0 a.0.1 (suc a.0.1) 0 _
                (cleared-IsWellFormed s h))))
  ]
]
  where
    offsets : List ℕ
    offsets = 0xa0 ∷ 0xb0 ∷ 0x98 ∷ 0xa8 ∷ 0x90 ∷ 0x70 ∷ []

    scanned : ℕ × ℕ → Actors
    scanned a =
        visit_chunks resolver vm a.0 a.1 (suc a.1) 0
          (record s { characters = []; vehicles = []; items = [] })
