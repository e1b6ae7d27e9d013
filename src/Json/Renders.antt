-- ===== src/Json/Renders.antt =====
-- The writers against the texts that they are to write.
use mathlib.Core.Bool.{true≢false}
use mathlib.Core.List.{append-nil, append_assoc}
use perfect_build_radar_touc.Base.{
  ℕ, zero, suc, ◌≡◌, refl, sym, ap, ◌∙◌, ◌⊎◌, inl, inr, Bool, true, false, List, [], ◌∷◌, ◌++◌,
  arith, Bytes, ltb, length, length-append, ◌≤◌, ◌-◌, take, Bool-cases, codes,
}
use perfect_build_radar_touc.Json.Output.{Stream, Write, put, fputs, fprint, done, ◌>>◌}
use perfect_build_radar_touc.Json.Text.{
  escaped, quoted, property_text, function_text, class_text, all_text, header_text,
}
use perfect_build_radar_touc.Json.{
  Property, Function, Class, escape_char, escape_all, json_write_escaped, json_write_property,
  json_write_function, write_list, json_write_class, header,
}

-- A writer renders `t`: the error flag stays set, and else a run sets it, or succeeds, has written
-- all of `t`, and leaves the flag; with room for `t` it succeeds.
pub record Renders (w : Write) (t : Bytes) : Type 0 where
  pub keeps : (s : Stream) → s.error ≡ true → (w s).1.error ≡ true
  pub runs :
      (s : Stream)
      → ((w s).1.error ≡ true)
        ⊎ ((w s).0 ≡ true) × ((w s).1.text ≡ s.text ++ t) × ((w s).1.error ≡ s.error)
  pub fits :
      (s : Stream)
      → length t ≤ s.room
      → ((w s).0 ≡ true) × ((w s).1.error ≡ s.error) × ((w s).1.room ≡ s.room - length t)

take-fit : (n : ℕ) (t : Bytes) → ltb n (length t) ≡ false → take n t ≡ t
take-fit zero [] h = refl
take-fit zero (c ∷ t) h = ground arith
take-fit (suc n) [] h = refl
take-fit (suc n) (c ∷ t) h = ap (◌∷◌ c) (take-fit n t (ground arith))

pub fprint-Renders : (t : Bytes) → Renders (fprint t) t
unfolding fprint put
fprint-Renders t = record {
  keeps = λ s h. ground arith;
  fits = λ s h. (ground arith, ground arith, refl);
  runs = λ s. elim (Bool-cases (ltb s.room (length t))) [
    | inl e ↦ inl (ground arith)
    | inr e ↦ inr (refl, ap (λ r. s.text ++ r) (take-fit s.room t e), ground arith)
  ];
}

fputs-Renders : (t : Bytes) → Renders (fputs t) t
unfolding fputs put
fputs-Renders t = record {
  keeps = λ s h. ground arith;
  fits = λ s h. (ground arith, ground arith, refl);
  runs = λ s. elim (Bool-cases (ltb s.room (length t))) [
    | inl e ↦ inl (ground arith)
    | inr e ↦ inr (ground arith, ap (λ r. s.text ++ r) (take-fit s.room t e), ground arith)
  ];
}

pub done-Renders : Renders done []
unfolding done
done-Renders = record {
  keeps = λ s h. h;
  fits = λ s h. (refl, refl, omega arith);
  runs = λ s. inr (refl, sym (append-nil s.text), refl);
}

seq-keeps :
    (v w : Write) (t u : Bytes)
    → Renders v t
    → Renders w u
    → (s : Stream) → s.error ≡ true
    → ((v >> w) s).1.error ≡ true
unfolding ◌>>◌
seq-keeps v w t u hv hw s h = elim (Bool-cases (v s).0) [
  | inl e ↦ rw e (hw.keeps (v s).1 (hv.keeps s h))
  | inr e ↦ rw e (hv.keeps s h)
]

seq-runs :
    (v w : Write) (t u : Bytes)
    → Renders v t
    → Renders w u
    → (s : Stream)
    → (((v >> w) s).1.error ≡ true)
      ⊎ (((v >> w) s).0 ≡ true)
        × (((v >> w) s).1.text ≡ s.text ++ (t ++ u))
        × (((v >> w) s).1.error ≡ s.error)
unfolding ◌>>◌
seq-runs v w t u hv hw s = elim (Bool-cases (v s).0) [
  | inl e ↦ rw e (elim (hv.runs s) [
    | inl bad ↦ inl (hw.keeps (v s).1 bad)
    | inr good ↦ elim (hw.runs (v s).1) [
      | inl bad ↦ inl bad
      | inr more ↦
          inr (more.0, more.1 ∙ ap (λ x. x ++ u) good.1 ∙ append_assoc s.text t u, more.2 ∙ good.2)
    ]
  ])
  | inr e ↦
      rw e
        (elim (hv.runs s) [ inl bad ↦ inl bad | inr good ↦ absurd (true≢false (sym good.0 ∙ e)) ])
]

seq-fits :
    (v w : Write) (t u : Bytes)
    → Renders v t
    → Renders w u
    → (s : Stream) → length (t ++ u) ≤ s.room
    → (((v >> w) s).0 ≡ true)
      × (((v >> w) s).1.error ≡ s.error)
      × (((v >> w) s).1.room ≡ s.room - length (t ++ u))
unfolding ◌>>◌
seq-fits v w t u hv hw s h =
    let both = length-append t u in
    let first = hv.fits s (omega (arith, both)) in
    let second = hw.fits (v s).1 (omega (arith, both, first.2)) in
    rw first.0 (second.0, second.1 ∙ first.1, omega (arith, second.2, first.2, both))

infixl 5 ◌⨾◌
pub ◌⨾◌ : {v w : Write} {t u : Bytes} → Renders v t → Renders w u → Renders (v >> w) (t ++ u)
hv ⨾ hw = record {
  keeps = seq-keeps _ _ _ _ hv hw;
  runs = seq-runs _ _ _ _ hv hw;
  fits = seq-fits _ _ _ _ hv hw;
}

escape_all-Renders : (s : Bytes) → Renders (escape_all s) (escaped s)
unfolding escape_all escaped
escape_all-Renders [] = done-Renders
escape_all-Renders (c ∷ s) = fputs-Renders (escape_char c) ⨾ escape_all-Renders s

pub json_write_escaped-Renders : (s : Bytes) → Renders (json_write_escaped s) (quoted s)
unfolding json_write_escaped quoted
json_write_escaped-Renders s =
    fputs-Renders (codes "\"") ⨾ escape_all-Renders s ⨾ fputs-Renders (codes "\"")

pub write_list-Renders :
    {A : Type 0} (write : A → Bool → Write) (text : A → Bool → Bytes)
    → ((x : A) (last : Bool) → Renders (write x last) (text x last))
    → (xs : List A) → Renders (write_list write xs) (all_text text xs)
unfolding write_list all_text
write_list-Renders write text h [] = done-Renders
write_list-Renders write text h (x ∷ []) = h x true
write_list-Renders write text h (x ∷ y ∷ xs) = h x false ⨾ write_list-Renders write text h (y ∷ xs)

json_write_property-Renders :
    (p : Property) (last : Bool) → Renders (json_write_property p last) (property_text p last)
unfolding json_write_property property_text
json_write_property-Renders p last =
    fprint-Renders _
    ⨾ fprint-Renders _
    ⨾ json_write_escaped-Renders p.name
    ⨾ fprint-Renders _
    ⨾ json_write_escaped-Renders p.type
    ⨾ fprint-Renders _
    ⨾ fprint-Renders _
    ⨾ fprint-Renders _
    ⨾ fprint-Renders _

json_write_function-Renders :
    (f : Function) (last : Bool) → Renders (json_write_function f last) (function_text f last)
unfolding json_write_function function_text
json_write_function-Renders f last =
    fprint-Renders _
    ⨾ fprint-Renders _
    ⨾ json_write_escaped-Renders f.name
    ⨾ fprint-Renders _
    ⨾ fprint-Renders _
    ⨾ fprint-Renders _

pub json_write_class-Renders :
    (c : Class) (last : Bool) → Renders (json_write_class c last) (class_text c last)
unfolding json_write_class class_text
json_write_class-Renders c last =
    fprint-Renders _
    ⨾ fprint-Renders _
    ⨾ json_write_escaped-Renders c.name
    ⨾ fprint-Renders _
    ⨾ fprint-Renders _
    ⨾ json_write_escaped-Renders c.super_name
    ⨾ fprint-Renders _
    ⨾ fprint-Renders _
    ⨾ fprint-Renders _
    ⨾ write_list-Renders json_write_property property_text json_write_property-Renders c.properties
    ⨾ fprint-Renders _
    ⨾ fprint-Renders _
    ⨾ write_list-Renders json_write_function function_text json_write_function-Renders c.functions
    ⨾ fprint-Renders _
    ⨾ fprint-Renders _

pub header-Renders : Renders header header_text
unfolding header header_text
header-Renders = fprint-Renders _ ⨾ fprint-Renders _ ⨾ fprint-Renders _ ⨾ fprint-Renders _
