-- ===== src/Reflection/Instance/Object.antt =====
-- What one object comes to.
use perfect_build_radar_touc.Base.{
  ℕ, ◌/◌, ◌%◌, ◌≡◌, ◌≢◌, ◌∙◌, ◌⊎◌, inl, inr, true, false, some, arith, ◌==◌, ==_iff, if◌then◌else◌,
  if-split, Bytes, same_text, Bool-cases, Option-cases,
}
use perfect_build_radar_touc.Remote.{Vm, fetch, validate_ptr}
use perfect_build_radar_touc.Reflection.{Ctx}
use perfect_build_radar_touc.Reflection.Names.{resolve_object_name}
use perfect_build_radar_touc.Reflection.Instance.{
  hit, restarted, passed, header_flags, header_class, lookup_slot, derives, see_class, with_match,
  see_instance, see_object,
}
use perfect_build_radar_touc.Reflection.Instance.Lookup.{SameLookup, resolve_object_name-SameLookup}
use perfect_build_radar_touc.Reflection.Instance.Sound.{
  IsLookup, IsInstance, IsSeen, same-IsLookup, found-IsLookup, with_match-IsLookup, with_match-key,
  matched,
}

flag-clear : (flags : ℕ) → (flags / 16 % 2 == 1) ≡ false → flags / 16 % 2 ≡ 0
flag-clear flags h = ground (arith, h)

valid-ne-zero : (obj : ℕ) → validate_ptr obj ≡ true → obj ≢ 0
unfolding validate_ptr
valid-ne-zero obj h z = ground (arith, h, z)

class-ne-zero : (ctx : Ctx) → (ctx.lookup_class == 0) ≡ false → ctx.lookup_class ≢ 0
class-ne-zero ctx h z = ground (arith, h, z)

class-same : (ctx ctx' : Ctx) → SameLookup ctx ctx' → ctx.lookup_class ≡ 0 → ctx'.lookup_class ≡ 0
unfolding SameLookup
class-same ctx ctx' same h = same.2 ∙ h

module _ (vm : Vm) where
  restarted-IsSeen :
      (ctx : Ctx) (obj : ℕ)
      → obj ≢ 0
      → ctx.lookup_class ≡ 0
      → IsLookup vm ctx
      → IsSeen vm (restarted (record ctx { lookup_class = obj }))
  unfolding IsSeen
  restarted-IsSeen ctx obj ho hc h = found-IsLookup vm ctx obj ho hc h

  passed-IsSeen : (ctx : Ctx) → IsLookup vm ctx → IsSeen vm (passed ctx)
  unfolding IsSeen
  passed-IsSeen ctx h = h

  see_class-IsSeen :
      (name : Bytes) (ctx : Ctx) (obj cls : ℕ)
      → obj ≢ 0
      → ctx.lookup_class ≡ 0
      → IsLookup vm ctx
      → IsSeen vm (see_class vm name ctx obj cls)
  unfolding see_class
  see_class-IsSeen name ctx obj cls ho hc h =
      let named = resolve_object_name vm ctx obj 256 in
      let same = resolve_object_name-SameLookup vm ctx obj 256 in
      let known = same-IsLookup vm ctx named.1 same h in
      elim (Bool-cases (cls == ctx.uclass_class)) [
        | inr e ↦ rw (e, see_class) (passed-IsSeen ctx h)
        | inl e ↦ elim (Option-cases named.0) [
          | inl unnamed ↦ rw (e, unnamed, see_class) (passed-IsSeen named.1 known)
          | inr candidate ↦
              rw (e, candidate.1, see_class)
                (if-split (IsSeen vm) (same_text candidate.0 name)
                  (restarted (record named.1 { lookup_class = obj })) (passed named.1)
                  (λ _. restarted-IsSeen named.1 obj ho (class-same ctx named.1 same hc) known)
                  (λ _. passed-IsSeen named.1 known))
        ]
      ]

  hit-IsSeen :
      (ctx : Ctx) (obj : ℕ) (header : Bytes)
      → validate_ptr obj ≡ true
      → fetch vm obj 24 ≡ some header
      → header_flags header / 16 % 2 ≡ 0
      → (header_class header ≡ 0) ⊎ (derives vm ctx.lookup_class 32 (header_class header) ≡ true)
      → IsLookup vm ctx
      → IsSeen vm (hit obj ctx)
  unfolding IsSeen IsInstance
  hit-IsSeen ctx obj header hv hh hf hd h = ((hv, (header, hh, hf, hd)), h)

  see_instance-IsSeen :
      (ctx : Ctx) (obj : ℕ) (header : Bytes)
      → validate_ptr obj ≡ true
      → fetch vm obj 24 ≡ some header
      → ctx.lookup_class ≢ 0
      → IsLookup vm ctx
      → IsSeen vm (see_instance vm ctx obj (header_flags header) (header_class header))
  unfolding see_instance
  see_instance-IsSeen ctx obj header hv hh hc h =
      let cls = header_class header in
      let known = with_match vm ctx cls in
      let good = with_match-IsLookup vm ctx cls hc h in
      if-split (IsSeen vm) (header_flags header / 16 % 2 == 1) (passed ctx)
        (if known.lookup_matches (lookup_slot cls) then hit obj known else passed known)
        (λ _. passed-IsSeen ctx h)
        (λ e.
          if-split (IsSeen vm) (known.lookup_matches (lookup_slot cls)) (hit obj known)
            (passed known)
            (λ m.
              hit-IsSeen known obj header hv hh (flag-clear (header_flags header) e)
                (matched vm known cls good (with_match-key vm ctx cls) m) good)
            (λ _. passed-IsSeen known good))

  pub see_object-IsSeen :
      (name : Bytes) (ctx : Ctx) (obj : ℕ)
      → IsLookup vm ctx
      → IsSeen vm (see_object vm name ctx obj)
  unfolding see_object
  see_object-IsSeen name ctx obj h = elim (Bool-cases (validate_ptr obj)) [
    | inr e ↦ rw (e, see_object) (passed-IsSeen ctx h)
    | inl e ↦ elim (Option-cases (fetch vm obj 24)) [
      | inl unread ↦ rw (e, unread, see_object) (passed-IsSeen ctx h)
      | inr header ↦
          rw (e, header.1, see_object)
            (if-split (IsSeen vm) (ctx.lookup_class == 0)
              (see_class vm name ctx obj (header_class header.0))
              (see_instance vm ctx obj (header_flags header.0) (header_class header.0))
              (λ z.
                see_class-IsSeen name ctx obj (header_class header.0) (valid-ne-zero obj e)
                  ((==_iff ctx.lookup_class 0).0 z) h)
              (λ z. see_instance-IsSeen ctx obj header.0 e header.1 (class-ne-zero ctx z) h))
    ]
  ]
