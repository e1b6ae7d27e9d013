-- ===== src/Reflection/Classes/Sample.antt =====
-- A target with one object, which is a class with one property.
use perfect_build_radar_touc.Base.{
  ℕ, ◌+◌, ◌*◌, ◌≡◌, refl, sym, if-split, ◌⊎◌, inl, inr, arith, false, List, [], ◌∷◌, none, some,
  ◌==◌, if◌then◌else◌, replicate, le, add64, subst, All, All-always,
}
use perfect_build_radar_touc.Remote.{Vm, read, fetch, read_ptr, read_i32, validate_ptr}
use perfect_build_radar_touc.Json.{Class}
use perfect_build_radar_touc.Reflection.{Ctx}
use perfect_build_radar_touc.Reflection.Names.Cache.{IsSlot, IsCached}
use perfect_build_radar_touc.Reflection.Members.{first_property, next_member}
use perfect_build_radar_touc.Reflection.Members.Walk.{Ends}
use perfect_build_radar_touc.Reflection.Objects.{usable, get_objects_info}
use perfect_build_radar_touc.Reflection.Classes.{walk_classes}
use perfect_build_radar_touc.Reflection.Classes.Trace.{entered_classes}
use perfect_build_radar_touc.Reflection.Classes.Ends.{walk_classes-Ends}

-- The third byte of a pointer.
abbrev pub page : ℕ → ℕ
page a = if a == 0x10010 then 2 else if a == 0x30038 then 4 else if a == 0x30010 then 3 else 0

abbrev pub target : Vm
target a n =
    if n == 8
    then some (0 ∷ 0 ∷ page a ∷ 0 ∷ 0 ∷ 0 ∷ 0 ∷ 0 ∷ [])
    else if n == 4
    then some ((if a == 0x10024 then 1 else 0) ∷ 0 ∷ 0 ∷ 0 ∷ [])
    else if n == 24
    then some (0 ∷ 0 ∷ 3 ∷ replicate 21 0)
    else none

abbrev pub ctx : Ctx
ctx = record {
  image_base = 0;
  slide = 0;
  guobjectarray = 0x10000;
  gnamepool = 0;
  gname_chunk_table = 0;
  cached_chunks = λ i. 0;
  uclass_class = 0x30000;
  lookup_keys = λ i. 0;
  lookup_matches = λ i. false;
  lookup_class = 0;
  lookup_name = [];
  name_cache = λ i. record { comp_index = none; name = [] };
}

abbrev pub count_call : ℕ → Class → ℕ
count_call n c = n + 1

pub ctx-IsCached : IsCached ctx
unfolding IsCached IsSlot
ctx-IsCached i = (omega arith, λ n e. absurd (ground (arith, e)))

pub target-objects : get_objects_info target 0x10000 ≡ some (record { ptr = 0x20000; count = 1 })
unfolding get_objects_info usable read fetch read_ptr read_i32 validate_ptr le
target-objects = refl

read_ptr-page : (a : ℕ) → read_ptr target a ≡ page a * 65536
unfolding read fetch read_ptr le
read_ptr-page a = omega arith

-- A member at any of the pages has no more than one behind it.
page-Ends : (a : ℕ) → Ends target 2 (page a * 65536)
unfolding Ends next_member read fetch read_ptr validate_ptr le
page-Ends a =
    let cases : (page a ≡ 2) ⊎ ((page a ≡ 4) ⊎ ((page a ≡ 3) ⊎ (page a ≡ 0))) = ground arith in
    elim cases [
      | inl e ↦ rw e (inr (inl refl))
      | inr (inl e) ↦ rw e (inr (inl refl))
      | inr (inr (inl e)) ↦ rw e (inr (inl refl))
      | inr (inr (inr e)) ↦ rw e (inl refl)
    ]

read-Ends : (a : ℕ) → Ends target 2 (read_ptr target a)
read-Ends a = subst (Ends target 2) (sym (read_ptr-page a)) (page-Ends a)

members-Ends : (obj : ℕ) → Ends target 2 (first_property target obj)
unfolding first_property
members-Ends obj =
    let children = read_ptr target (add64 obj 0x38) in
    let child_props = read_ptr target (add64 obj 0x50) in
    let last = read_ptr target (add64 obj 0x48) in
    if-split (Ends target 2) (validate_ptr children) children
      (if validate_ptr child_props then child_props else last) (λ _. read-Ends (add64 obj 0x38))
      (λ _.
        if-split (Ends target 2) (validate_ptr child_props) child_props last
          (λ _. read-Ends (add64 obj 0x50)) (λ _. read-Ends (add64 obj 0x48)))

pub target-Ends :
    All (λ obj. Ends target 2 (first_property target obj)) (entered_classes target 3 ctx)
target-Ends = All-always _ (entered_classes target 3 ctx) members-Ends

-- The walk over it.
pub sample_walk : (r : List Class × Ctx) × (walk_classes target 3 ctx ≡ some r)
sample_walk = walk_classes-Ends target 2 3 ctx target-Ends (omega arith)
