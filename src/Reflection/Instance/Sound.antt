-- ===== src/Reflection/Instance/Sound.antt =====
-- What an object that is found is, and what the lookup remembers.
use perfect_build_radar_touc.Base.{
  ℕ, ◌/◌, ◌%◌, ◌≡◌, ◌≢◌, refl, subst, ◌⊎◌, inl, inr, true, some, arith, ◌==◌, ==_iff, if-split,
  Bytes, Bool-cases,
}
use perfect_build_radar_touc.Remote.{Vm, fetch, validate_ptr}
use perfect_build_radar_touc.Reflection.{Ctx}
use perfect_build_radar_touc.Reflection.Instance.{
  Seen, hit, restarted, passed, header_flags, header_class, lookup_slot, new_lookup, remember_match,
  derives, with_match,
}
use perfect_build_radar_touc.Reflection.Instance.Lookup.{SameLookup}

-- No class is remembered before the lookup has one; a class that is remembered as a match derives
-- from that of the lookup.
unfoldable pub IsLookup : Vm → Ctx → Type 0
IsLookup vm ctx =
    (ctx.lookup_class ≡ 0 → (slot : ℕ) → ctx.lookup_keys slot ≡ 0)
    × ((slot : ℕ)
        → ctx.lookup_keys slot ≢ 0
        → ctx.lookup_matches slot ≡ true
        → derives vm ctx.lookup_class 32 (ctx.lookup_keys slot) ≡ true)

-- An object whose header can be read, that is not a class default object, and whose class is null
-- or derives from that of the lookup.
unfoldable pub IsInstance : Vm → Ctx → (obj : ℕ) → Type 0
IsInstance vm ctx obj =
    (validate_ptr obj ≡ true)
    × ((header : Bytes) × (fetch vm obj 24 ≡ some header)
        × (header_flags header / 16 % 2 ≡ 0)
        × ((header_class header ≡ 0)
            ⊎ (derives vm ctx.lookup_class 32 (header_class header) ≡ true)))

unfoldable pub IsSeen : Vm → Seen → Type 0
IsSeen vm (hit obj ctx) = IsInstance vm ctx obj × IsLookup vm ctx
IsSeen vm (restarted ctx) = IsLookup vm ctx
IsSeen vm (passed ctx) = IsLookup vm ctx

module _ (vm : Vm) where
  pub same-IsLookup : (ctx ctx' : Ctx) → SameLookup ctx ctx' → IsLookup vm ctx → IsLookup vm ctx'
  unfolding SameLookup IsLookup
  same-IsLookup ctx ctx' same h = rw (same.0, same.1, same.2) h

  pub new_lookup-IsLookup : (ctx : Ctx) (name : Bytes) → IsLookup vm (new_lookup ctx name)
  unfolding IsLookup new_lookup
  new_lookup-IsLookup ctx name = (λ h slot. refl, λ slot h. absurd (h refl))

  -- A class that is found while none is remembered.
  pub found-IsLookup :
      (ctx : Ctx) (obj : ℕ)
      → obj ≢ 0
      → ctx.lookup_class ≡ 0
      → IsLookup vm ctx
      → IsLookup vm (record ctx { lookup_class = obj })
  unfolding IsLookup
  found-IsLookup ctx obj ho hc h = (λ e. absurd (ho e), λ slot hk. absurd (hk (h.0 hc slot)))

  remember_match-IsLookup :
      (ctx : Ctx) (cls : ℕ)
      → ctx.lookup_class ≢ 0
      → IsLookup vm ctx
      → IsLookup vm (remember_match ctx cls (derives vm ctx.lookup_class 32 cls))
  unfolding IsLookup remember_match
  remember_match-IsLookup ctx cls hc h = (
    λ e. absurd (hc e),
    λ slot. elim (Bool-cases (slot == lookup_slot cls)) [
      | inl e ↦ rw e (λ hk hm. hm)
      | inr e ↦ rw e (h.1 slot)
    ],
  )

  pub with_match-IsLookup :
      (ctx : Ctx) (cls : ℕ)
      → ctx.lookup_class ≢ 0
      → IsLookup vm ctx
      → IsLookup vm (with_match vm ctx cls)
  unfolding with_match
  with_match-IsLookup ctx cls hc h =
      let match = derives vm ctx.lookup_class 32 cls in
      if-split (IsLookup vm) (ctx.lookup_keys (lookup_slot cls) == cls) ctx
        (remember_match ctx cls match) (λ _. h) (λ _. remember_match-IsLookup ctx cls hc h)

  -- The slot of a class holds it once its match is known.
  pub with_match-key :
      (ctx : Ctx) (cls : ℕ) → (with_match vm ctx cls).lookup_keys (lookup_slot cls) ≡ cls
  unfolding with_match remember_match
  with_match-key ctx cls = ground (arith, ==_iff (lookup_slot cls) (lookup_slot cls))

  pub with_match-class :
      (ctx : Ctx) (cls : ℕ) → (with_match vm ctx cls).lookup_class ≡ ctx.lookup_class
  unfolding with_match remember_match
  with_match-class ctx cls = ground arith

  -- What a match of a class says of it.
  pub matched :
      (ctx : Ctx) (cls : ℕ)
      → IsLookup vm ctx
      → ctx.lookup_keys (lookup_slot cls) ≡ cls
      → ctx.lookup_matches (lookup_slot cls) ≡ true
      → (cls ≡ 0) ⊎ (derives vm ctx.lookup_class 32 cls ≡ true)
  unfolding IsLookup
  matched ctx cls h hk hm = elim (Bool-cases (cls == 0)) [
    | inl e ↦ inl ((==_iff cls 0).0 e)
    | inr e ↦
        let key : ctx.lookup_keys (lookup_slot cls) ≢ 0 = λ z. ground (arith, e, hk, z) in
        inr (subst (λ k. derives vm ctx.lookup_class 32 k ≡ true) hk (h.1 (lookup_slot cls) key hm))
  ]
