-- ===== src/Reflection/Path/Bounds.antt =====
-- The lengths of the paths, and how they start.
use perfect_build_radar_touc.Base.{
  ℕ, zero, suc, ◌+◌, ◌-◌, ◌≤◌, ◌<◌, ◌≡◌, refl, ◌⊎◌, inl, inr, true, not, [], ◌∷◌, ◌++◌, arith, ◌==◌,
  if◌then◌else◌, if-split, ==_iff, take, length, length-take, Bytes, add64, fit, codes,
}
use perfect_build_radar_touc.Remote.{Vm, read_ptr, validate_ptr}
use perfect_build_radar_touc.Reflection.{Ctx}
use perfect_build_radar_touc.Reflection.Names.{resolve_object_name}
use perfect_build_radar_touc.Reflection.Names.Cache.{IsCached, resolve_object_name-IsCached}
use perfect_build_radar_touc.Reflection.Path.{
  max_path_depth, name_or, root_path, path_name, build_path_name,
}

-- A slash, or the first of the dots that stand for the rest of a long chain.
unfoldable pub IsStart : Bytes → Type 0
IsStart [] = ⊥
IsStart (c ∷ s) = (c ≡ 47) ⊎ (c ≡ 46)

-- A path of fewer than `max` bytes that starts as one, and a cache as it should be.
unfoldable pub IsPath : (max : ℕ) → Bytes × Ctx → Type 0
IsPath max r = (length r.0 < max) × IsStart r.0 × IsCached r.1

take-IsStart : (n : ℕ) (t : Bytes) → 0 < n → IsStart t → IsStart (take n t)
unfolding IsStart
take-IsStart n [] hn h = absurd h
take-IsStart zero (c ∷ t) hn h = absurd (omega arith)
take-IsStart (suc n) (c ∷ t) hn h = h

dots-IsStart : IsStart (codes "...")
unfolding IsStart
dots-IsStart = inr refl

fit-IsPath :
    (max : ℕ) (t : Bytes) (ctx : Ctx)
    → 2 ≤ max
    → IsStart t
    → IsCached ctx
    → IsPath max (fit max t, ctx)
unfolding IsPath
fit-IsPath max t ctx hm h hc =
    (omega (arith, hm, length-take (max - 1) t), take-IsStart (max - 1) t (omega arith) h, hc)

root_path-IsStart : (name : Bytes) → IsStart (root_path name)
unfolding root_path IsStart
root_path-IsStart [] = inl refl
root_path-IsStart (c ∷ name) =
    if-split IsStart (c == 47) (c ∷ name) (47 ∷ c ∷ name) (λ e. inl ((==_iff c 47).0 e))
      (λ _. inl refl)

append-IsStart : (s t : Bytes) → IsStart s → IsStart (s ++ t)
unfolding IsStart
append-IsStart [] t h = absurd h
append-IsStart (c ∷ s) t h = h

-- The parts of a path.
path-IsStart : (max : ℕ) (r : Bytes × Ctx) → IsPath max r → IsStart r.0
unfolding IsPath
path-IsStart max r h = h.1

path-IsCached : (max : ℕ) (r : Bytes × Ctx) → IsPath max r → IsCached r.1
unfolding IsPath
path-IsCached max r h = h.2

path_name-IsPath :
    (vm : Vm) (levels : ℕ) (ctx : Ctx) (obj max : ℕ)
    → validate_ptr obj ≡ true
    → 2 ≤ max
    → IsCached ctx
    → IsPath max (path_name vm levels ctx obj max)
unfolding path_name
path_name-IsPath vm zero ctx obj max hv hm h = fit-IsPath max (codes "...") ctx hm dots-IsStart h
path_name-IsPath vm (suc levels) ctx obj max hv hm h =
    let named = resolve_object_name vm ctx obj 256 in
    let name = name_or (codes "<unknown>") named.0 in
    let cached = (resolve_object_name-IsCached vm ctx obj 256 h).1 in
    let outer = read_ptr vm (add64 obj 0x20) in
    let outer_path = path_name vm levels named.1 outer 512 in
    let joined : Bytes × Ctx = (fit max (outer_path.0 ++ codes "." ++ name), outer_path.1) in
    let root : Bytes × Ctx = (fit max (root_path name), named.1) in
    if-split (IsPath max) (not (validate_ptr obj)) (fit max (codes "<null>"), ctx)
      (if validate_ptr outer then joined else root) (λ e. absurd (ground (arith, e, hv)))
      (λ _.
        if-split (IsPath max) (validate_ptr outer) joined root
          (λ valid.
            let inner = path_name-IsPath vm levels named.1 outer 512 valid (omega arith) cached in
            fit-IsPath max (outer_path.0 ++ codes "." ++ name) outer_path.1 hm
              (append-IsStart (outer_path.0 ++ codes ".") name
                (append-IsStart outer_path.0 (codes ".") (path-IsStart 512 outer_path inner)))
              (path-IsCached 512 outer_path inner))
          (λ _. fit-IsPath max (root_path name) named.1 hm (root_path-IsStart name) cached))

-- For an object whose address passes the check and a buffer of at least two bytes, the path that
-- `build_path_name` writes, at any depth and for any chain of outer objects, also one that comes
-- back to the object, has room for its NUL and starts with a slash, or with a dot where the chain
-- is too long; the name cache stays as `ue4r_resolve_name` leaves it.
pub build_path_name_bounds :
    (vm : Vm) (ctx : Ctx) (obj max depth : ℕ)
    → validate_ptr obj ≡ true
    → 2 ≤ max
    → IsCached ctx
    → (length (build_path_name vm ctx obj max depth).0 < max)
      × IsStart (build_path_name vm ctx obj max depth).0
      × IsCached (build_path_name vm ctx obj max depth).1
unfolding build_path_name IsPath
build_path_name_bounds vm ctx obj max depth hv hm h =
    path_name-IsPath vm (max_path_depth + 1 - depth) ctx obj max hv hm h
