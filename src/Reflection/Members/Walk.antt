-- ===== src/Reflection/Members/Walk.antt =====
-- The loops over the members of a class: how far they go, and when they end.
use perfect_build_radar_touc.Base.{
  ℕ, zero, suc, ◌-◌, ◌<◌, ◌≡◌, refl, ◌⊎◌, inl, inr, true, false, not, ◌||◌, List, [], ◌∷◌, none,
  some, arith, ◌==◌, Bool-cases, Option-cases,
}
use perfect_build_radar_touc.Remote.{Vm, validate_ptr}
use perfect_build_radar_touc.Json.{Property}
use perfect_build_radar_touc.Reflection.{Ctx}
use perfect_build_radar_touc.Reflection.Members.{
  max_list_walk, first_property, next_member, read_member, walk_properties, read_properties,
}

-- The chain of members from an address has at most `n` of them: it ends at the first address that
-- does not pass the pointer check.
unfoldable pub Ends : Vm → ℕ → ℕ → Type 0
Ends vm zero prop_ptr = validate_ptr prop_ptr ≡ false
Ends vm (suc n) prop_ptr = (validate_ptr prop_ptr ≡ false) ⊎ Ends vm n (next_member vm prop_ptr)

module _ (vm : Vm) where
  stopped :
      (room : ℕ) (ctx : Ctx) (p fuel : ℕ)
      → validate_ptr p ≡ false
      → walk_properties vm (suc fuel) room ctx p ≡ some ([], ctx)
  unfolding walk_properties
  stopped room ctx p fuel e = rw e refl

  -- A chain that ends needs as many rounds as it has members, and one more.
  walk_properties-Ends :
      (n fuel room : ℕ) (ctx : Ctx) (p : ℕ)
      → Ends vm n p
      → n < fuel
      → (r : List Property × Ctx) × (walk_properties vm fuel room ctx p ≡ some r)
  unfolding walk_properties Ends
  walk_properties-Ends n zero room ctx p h hf = absurd (omega arith)
  walk_properties-Ends zero (suc fuel) room ctx p h hf = (([], ctx), stopped room ctx p fuel h)
  walk_properties-Ends (suc n) (suc fuel) room ctx p (inl h) hf =
      (([], ctx), stopped room ctx p fuel h)
  walk_properties-Ends (suc n) (suc fuel) room ctx p (inr h) hf =
      let member = read_member vm ctx p in
      let skipped = walk_properties-Ends n fuel room member.1 (next_member vm p) h (omega arith) in
      let counted =
        walk_properties-Ends n fuel (room - 1) member.1 (next_member vm p) h (omega arith) in
      elim (Bool-cases (not (validate_ptr p) || room == 0)) [
        | inl e ↦ (([], ctx), rw e refl)
        | inr e ↦ elim (Option-cases member.0) [
          | inl none_here ↦ (skipped.0, rw (e, none_here) skipped.1)
          | inr prop ↦ ((prop.0 ∷ counted.0.0, counted.0.1), rw (e, prop.1, counted.1) refl)
        ]
      ]

  -- A member that is skipped and links to itself keeps the loop in its place.
  walk_properties-none :
      (p : ℕ)
      → validate_ptr p ≡ true
      → next_member vm p ≡ p
      → ((ctx : Ctx) → (read_member vm ctx p).0 ≡ none)
      → (fuel room : ℕ) (ctx : Ctx) → 0 < room
      → walk_properties vm fuel room ctx p ≡ none
  unfolding walk_properties
  walk_properties-none p hv hn hs zero room ctx h = refl
  walk_properties-none p hv hn hs (suc fuel) room ctx h =
      rw (hv, hs ctx, hn)
        (ground (arith, h, walk_properties-none p hv hn hs fuel room (read_member vm ctx p).1 h))

-- When the chain of members of a class has at most `n` of them, `read_properties` returns within
-- `n + 1` rounds.
pub read_properties-Ends :
    (vm : Vm) (n fuel : ℕ) (ctx : Ctx) (class_addr : ℕ)
    → Ends vm n (first_property vm class_addr)
    → n < fuel
    → (r : List Property × Ctx) × (read_properties vm fuel ctx class_addr ≡ some r)
unfolding read_properties
read_properties-Ends vm n fuel ctx class_addr h hf =
    walk_properties-Ends vm n fuel max_list_walk ctx (first_property vm class_addr) h hf

-- When the first member of a class is a UField that links to itself and the name of its class
-- cannot be read, `read_properties` never returns: no number of rounds is enough, since a member
-- that is skipped does not count against the cap of 1000.
pub read_properties-none :
    (vm : Vm) (class_addr : ℕ)
    → validate_ptr (first_property vm class_addr) ≡ true
    → next_member vm (first_property vm class_addr) ≡ first_property vm class_addr
    → ((ctx : Ctx) → (read_member vm ctx (first_property vm class_addr)).0 ≡ none)
    → (fuel : ℕ) (ctx : Ctx) → read_properties vm fuel ctx class_addr ≡ none
unfolding read_properties
read_properties-none vm class_addr hv hn hs fuel ctx =
    walk_properties-none vm (first_property vm class_addr) hv hn hs fuel max_list_walk ctx
      (omega arith)
