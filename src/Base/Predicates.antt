-- ===== src/Base/Predicates.antt =====
-- A predicate on every member of a list.
use Prim.Native.Nat.{ℕ, zero, suc}
use mathlib.Core.Path.{◌≡◌, sym}
use mathlib.Core.Bool.{Bool, true, false, true≢false}
use mathlib.Core.List.{List, [], ◌∷◌, ◌++◌}
use perfect_build_radar_touc.Base.Tests.{if◌then◌else◌}
use perfect_build_radar_touc.Base.Lists.{take, drop}

abbrev pub All {ℓ κ} : {A : Type ℓ} → (A → Type κ) → List A → Type κ
All P [] = Unit
All P (x ∷ xs) = P x × All P xs

pub All-append {ℓ κ} :
    {A : Type ℓ} (P : A → Type κ) (xs ys : List A) → All P xs → All P ys → All P (xs ++ ys)
All-append P [] ys hx hy = hy
All-append P (x ∷ xs) ys hx hy = (hx.0, All-append P xs ys hx.1 hy)

pub All-take {ℓ κ} :
    {A : Type ℓ} (P : A → Type κ) (n : ℕ) (xs : List A) → All P xs → All P (take n xs)
All-take P zero xs h = tt
All-take P (suc n) [] h = tt
All-take P (suc n) (x ∷ xs) h = (h.0, All-take P n xs h.1)

pub All-drop {ℓ κ} :
    {A : Type ℓ} (P : A → Type κ) (n : ℕ) (xs : List A) → All P xs → All P (drop n xs)
All-drop P zero xs h = h
All-drop P (suc n) [] h = tt
All-drop P (suc n) (x ∷ xs) h = All-drop P n xs h.1

pub All-if {ℓ κ} :
    {A : Type ℓ} (P : A → Type κ) (b : Bool) (x : A) (xs : List A)
    → All P (if b then x ∷ xs else xs)
    → (b ≡ true → P x) × All P xs
All-if P true x xs h = (λ _. h.0, h.1)
All-if P false x xs h = (λ e. absurd (true≢false (sym e)), h)

pub All-parts {ℓ κ} :
    {A : Type ℓ} (P : A → Type κ) (xs ys : List A) → All P (xs ++ ys) → All P xs × All P ys
All-parts P [] ys h = (tt, h)
All-parts P (x ∷ xs) ys h = let rest = All-parts P xs ys h.1 in ((h.0, rest.0), rest.1)

pub All-always {ℓ κ} : {A : Type ℓ} (P : A → Type κ) (xs : List A) → ((x : A) → P x) → All P xs
All-always P [] h = tt
All-always P (x ∷ xs) h = (h x, All-always P xs h)
