-- ===== src/Radar/Items/Shadow.antt =====
-- The order of the rules on an actor's name.
use perfect_build_radar_touc.Base.{
  ℕ, ◌<◌, ◌≡◌, inl, inr, refl, Bool, true, false, ◌&&◌, ◌||◌, List, [], ◌∷◌, some, arith, Bytes,
  codes, fit, not, Bool-cases, Option-cases, same_text, contains, contains-shorter, length, ltb,
  take_of_length,
}
use perfect_build_radar_touc.Radar.Items.Table.{Rule, actor_rules}
use perfect_build_radar_touc.Radar.Items.{contains_any, first_rule, resolve_item_from_actor_name}

same_text-eq : (a b : Bytes) → same_text a b ≡ true → a ≡ b
unfolding same_text
same_text-eq [] [] h = refl
same_text-eq [] (y ∷ b) h = cc
same_text-eq (x ∷ a) [] h = cc
same_text-eq (x ∷ a) (y ∷ b) h = ground (arith, same_text-eq a b)

looks_for : Bytes → List Bytes → Bool
looks_for needle [] = false
looks_for needle (n ∷ ns) = same_text n needle || looks_for needle ns

only_looks_for : Bytes → List Bytes → Bool
only_looks_for needle [] = true
only_looks_for needle (n ∷ ns) = same_text n needle && only_looks_for needle ns

-- The rules up to the first that looks for `short` have other names than `name`.
shielded : Bytes → Bytes → List Rule → Bool
shielded short name [] = false
shielded short name (r ∷ rules) =
    not (same_text r.name name) && (looks_for short r.needles || shielded short name rules)

-- A rule with the name `name` looks for `long` and nothing else; every name fits 32 bytes.
only_by : Bytes → Bytes → List Rule → Bool
only_by long name [] = true
only_by long name (r ∷ rules) =
    (not (same_text r.name name) || only_looks_for long r.needles)
    && (ltb (length r.name) 32 && only_by long name rules)

contains_any-of_looks_for :
    (text needle : Bytes) (ns : List Bytes)
    → contains text needle ≡ true
    → looks_for needle ns ≡ true
    → contains_any text ns ≡ true
unfolding contains_any looks_for
contains_any-of_looks_for text needle [] h l = cc
contains_any-of_looks_for text needle (n ∷ ns) h l = elim (Bool-cases (same_text n needle)) [
  | inl e ↦ ground (arith, same_text-eq n needle e)
  | inr e ↦ ground (arith, contains_any-of_looks_for text needle ns h)
]

contains_any-only :
    (text needle : Bytes) (ns : List Bytes)
    → contains text needle ≡ false
    → only_looks_for needle ns ≡ true
    → contains_any text ns ≡ false
unfolding contains_any only_looks_for
contains_any-only text needle [] h l = refl
contains_any-only text needle (n ∷ ns) h l =
    ground (arith, same_text-eq n needle, contains_any-only text needle ns h)

first_rule-shielded :
    (text short name : Bytes) (rules : List Rule) (r : Rule)
    → contains text short ≡ true
    → shielded short name rules ≡ true
    → first_rule rules text ≡ some r
    → same_text r.name name ≡ false
unfolding first_rule shielded
first_rule-shielded text short name [] r c h e = cc
first_rule-shielded text short name (q ∷ rules) r c h e = ground (
  arith,
  contains_any-of_looks_for text short q.needles c,
  first_rule-shielded text short name rules r c,
)

first_rule-only :
    (text long name : Bytes) (rules : List Rule) (r : Rule)
    → contains text long ≡ false
    → only_by long name rules ≡ true
    → first_rule rules text ≡ some r
    → same_text r.name name ≡ false
unfolding first_rule only_by
first_rule-only text long name [] r c h e = cc
first_rule-only text long name (q ∷ rules) r c h e =
    ground
      (arith, contains_any-only text long q.needles c, first_rule-only text long name rules r c)

first_rule-length :
    (text long name : Bytes) (rules : List Rule) (r : Rule)
    → only_by long name rules ≡ true
    → first_rule rules text ≡ some r
    → length r.name < 32
unfolding first_rule only_by
first_rule-length text long name [] r h e = absurd (ground arith)
first_rule-length text long name (q ∷ rules) r h e =
    ground (arith, first_rule-length text long name rules r)

abbrev m24 : Bytes
m24 = codes "M24"

abbrev m249 : Bytes
m249 = codes "M249"

actor_rules-shielded : shielded m24 m249 actor_rules ≡ true
unfolding shielded actor_rules looks_for same_text
actor_rules-shielded = refl

actor_rules-only_by : only_by m249 m249 actor_rules ≡ true
unfolding only_by actor_rules only_looks_for same_text
actor_rules-only_by = refl

-- The rule for M24 stands before that for M249, and a text that contains "M249" contains "M24": no
-- actor name whatever is resolved to "M249".
pub resolve_item_from_actor_name-ne-m249 :
    (aname : Bytes) (old : Bytes × ℕ)
    → same_text old.0 (codes "M249") ≡ false
    → same_text (resolve_item_from_actor_name aname 32 old).0 (codes "M249") ≡ false
unfolding resolve_item_from_actor_name
resolve_item_from_actor_name-ne-m249 [] old h = h
resolve_item_from_actor_name-ne-m249 (c ∷ aname) old h =
    elim (Option-cases (first_rule actor_rules (c ∷ aname))) [
      | inl e ↦ rw (e, resolve_item_from_actor_name) h
      | inr (r, e) ↦
          let text = c ∷ aname in
          let whole : fit 32 r.name ≡ r.name =
            take_of_length 31 r.name (
              omega
                (arith, first_rule-length text m249 m249 actor_rules r actor_rules-only_by e)) in
          let other : same_text r.name m249 ≡ false = elim (Bool-cases (contains text m249)) [
            | inl long ↦
                first_rule-shielded text m24 m249 actor_rules r
                  (contains-shorter text m24 (b'9' ∷ []) long) actor_rules-shielded e
            | inr absent ↦ first_rule-only text m249 m249 actor_rules r absent actor_rules-only_by e
          ] in
          rw (e, resolve_item_from_actor_name) (rw whole other)
    ]
