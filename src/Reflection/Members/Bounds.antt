-- ===== src/Reflection/Members/Bounds.antt =====
-- The texts of the members against the structs of ue4_reflection.h, and the lengths of the lists.
use perfect_build_radar_touc.Base.{
  ℕ, zero, suc, ◌-◌, ◌≤◌, ◌<◌, ◌≡◌, refl, inl, inr, subst, not, ◌||◌, List, [], ◌∷◌, Option, none,
  some, arith, ◌==◌, if-split, length, length-take, Bytes, add64, All, Bool-cases, Option-cases,
  codes, contains,
}
use perfect_build_radar_touc.Remote.{Vm, read_ptr, validate_ptr}
use perfect_build_radar_touc.Json.{Property}
use perfect_build_radar_touc.Reflection.{Ctx}
use perfect_build_radar_touc.Reflection.Names.{resolve_name}
use perfect_build_radar_touc.Reflection.Names.Cache.{IsCached, resolve_name_bounds}
use perfect_build_radar_touc.Reflection.Path.{name_or}
use perfect_build_radar_touc.Reflection.Members.{
  read_uproperty, field_type, read_fproperty, next_member, read_ufield, read_member,
  walk_properties,
}

-- The texts fit their arrays of 256 bytes.
abbrev pub IsProperty : Property → Type 0
IsProperty p = (length p.name < 256) × (length p.type < 256)

-- A result of a walk with room for `room` properties, if there is one.
unfoldable pub IsProperties : ℕ → Option (List Property × Ctx) → Type 0
IsProperties room none = Unit
IsProperties room (some r) = (length r.0 ≤ room) × All IsProperty r.0 × IsCached r.1

unfoldable pub IsMember : Option Property × Ctx → Type 0
IsMember r = ((p : Property) → r.0 ≡ some p → IsProperty p) × IsCached r.1

pub name_or-lt :
    (other : Bytes) (o : Option Bytes)
    → length other < 256
    → ((t : Bytes) → o ≡ some t → length t < 256)
    → length (name_or other o) < 256
name_or-lt other none h k = h
name_or-lt other (some t) h k = k t refl

skip-IsMember : (ctx : Ctx) → IsCached ctx → IsMember (none, ctx)
unfolding IsMember
skip-IsMember ctx h = (λ p e. absurd (ground (arith, e)), h)

take-IsMember : (p : Property) (ctx : Ctx) → IsProperty p → IsCached ctx → IsMember (some p, ctx)
unfolding IsMember
take-IsMember p ctx hp h =
    (λ q e. let same : p ≡ q = ground (arith, e) in subst IsProperty same hp, h)

module _ (vm : Vm) where
  read_uproperty-IsProperty :
      (ctx : Ctx) (p : ℕ) (type_buf : Bytes)
      → IsCached ctx
      → IsProperty (read_uproperty vm ctx p type_buf).0
        × IsCached (read_uproperty vm ctx p type_buf).1
  unfolding read_uproperty
  read_uproperty-IsProperty ctx p type_buf h =
      let named = resolve_name_bounds vm ctx (add64 p 0x18) 256 h in
      (
        (
          name_or-lt (codes "<unknown>") _ (omega arith) named.0,
          omega (arith, length-take 255 type_buf),
        ),
        named.1,
      )

  field_type-lt :
      (ctx : Ctx) (fclass : ℕ)
      → IsCached ctx
      → (length (field_type vm ctx fclass).0 < 256) × IsCached (field_type vm ctx fclass).1
  unfolding field_type
  field_type-lt ctx fclass h =
      let typed = resolve_name_bounds vm ctx fclass 256 h in
      if-split (λ (r : Bytes × Ctx). (length r.0 < 256) × IsCached r.1) (validate_ptr fclass)
        (
          name_or (codes "Unknown") (resolve_name vm ctx fclass 256).0,
          (resolve_name vm ctx fclass 256).1,
        )
        (codes "Unknown", ctx)
        (λ _. (name_or-lt (codes "Unknown") _ (omega arith) typed.0, typed.1))
        (λ _. (omega arith, h))

  read_fproperty-IsProperty :
      (ctx : Ctx) (p : ℕ)
      → IsCached ctx
      → IsProperty (read_fproperty vm ctx p).0 × IsCached (read_fproperty vm ctx p).1
  unfolding read_fproperty
  read_fproperty-IsProperty ctx p h =
      let named = resolve_name_bounds vm ctx (add64 p 0x28) 256 h in
      let typed = field_type-lt _ (read_ptr vm (add64 p 0x08)) named.1 in
      ((name_or-lt (codes "<unknown>") _ (omega arith) named.0, typed.0), typed.1)

  read_ufield-IsMember : (ctx : Ctx) (p : ℕ) → IsCached ctx → IsMember (read_ufield vm ctx p)
  unfolding read_ufield
  read_ufield-IsMember ctx p h =
      let cls = add64 (read_ptr vm (add64 p 0x10)) 0x18 in
      let typed = resolve_name vm ctx cls 256 in
      let cached = (resolve_name_bounds vm ctx cls 256 h).1 in
      elim (Option-cases typed.0) [
        | inl e ↦ rw (e, read_ufield) (skip-IsMember typed.1 cached)
        | inr t ↦
            let u = read_uproperty vm typed.1 p t.0 in
            let good = read_uproperty-IsProperty typed.1 p t.0 cached in
            rw (t.1, read_ufield)
              (if-split IsMember (contains t.0 (codes "Property")) (some u.0, u.1) (none, typed.1)
                (λ _. take-IsMember u.0 u.1 good.0 good.1) (λ _. skip-IsMember typed.1 cached))
      ]

  read_member-IsMember : (ctx : Ctx) (p : ℕ) → IsCached ctx → IsMember (read_member vm ctx p)
  unfolding read_member
  read_member-IsMember ctx p h =
      let f = read_fproperty vm ctx p in
      let good = read_fproperty-IsProperty ctx p h in
      if-split IsMember (validate_ptr (read_ptr vm (add64 p 0x10))) (read_ufield vm ctx p)
        (some f.0, f.1) (λ _. read_ufield-IsMember ctx p h)
        (λ _. take-IsMember f.0 f.1 good.0 good.1)

  none-IsProperties : (room : ℕ) → IsProperties room none
  unfolding IsProperties
  none-IsProperties room = tt

  empty-IsProperties : (room : ℕ) (ctx : Ctx) → IsCached ctx → IsProperties room (some ([], ctx))
  unfolding IsProperties
  empty-IsProperties room ctx h = (omega arith, tt, h)

  more-IsProperties :
      (room : ℕ) (p : Property) (o : Option (List Property × Ctx))
      → 0 < room
      → IsProperty p
      → IsProperties (room - 1) o
      → IsProperties room (elim o [ none ↦ none | some r ↦ some (p ∷ r.0, r.1) ])
  unfolding IsProperties
  more-IsProperties room p none hr hp h = tt
  more-IsProperties room p (some r) hr hp h = (omega (arith, h.0), (hp, h.1), h.2)

  pub walk_properties-IsProperties :
      (fuel room : ℕ) (ctx : Ctx) (p : ℕ)
      → IsCached ctx
      → IsProperties room (walk_properties vm fuel room ctx p)
  unfolding walk_properties IsMember
  walk_properties-IsProperties zero room ctx p h = none-IsProperties room
  walk_properties-IsProperties (suc fuel) room ctx p h =
      let good : IsMember (read_member vm ctx p) = read_member-IsMember ctx p h in
      let member = read_member vm ctx p in
      let next = next_member vm p in
      elim (Bool-cases (not (validate_ptr p) || room == 0)) [
        | inl e ↦ rw e (empty-IsProperties room ctx h)
        | inr e ↦ elim (Option-cases member.0) [
          | inl none_here ↦
              rw (e, none_here) (walk_properties-IsProperties fuel room member.1 next good.1)
          | inr prop ↦
              rw (e, prop.1)
                (more-IsProperties room prop.0 (walk_properties vm fuel (room - 1) member.1 next)
                  (ground (arith, e)) (good.0 prop.0 prop.1)
                  (walk_properties-IsProperties fuel (room - 1) member.1 next good.1))
        ]
      ]
