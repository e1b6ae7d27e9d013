-- ===== src/Reflection/Names/Again.antt =====
-- A name that is resolved a second time, from the cache.
use perfect_build_radar_touc.Base.{
  ℕ, ◌+◌, ◌-◌, ◌%◌, ◌≤◌, ◌<◌, ◌≡◌, ◌≢◌, refl, sym, ap, ◌∙◌, false, not, ◌&&◌, [], ◌++◌, Option,
  none, some, arith, ◌==◌, ==_refl, take, length, length-append, length-take, take_of_length, Bytes,
  ℤ, pos, fit,
}
use perfect_build_radar_touc.Remote.{Vm}
use perfect_build_radar_touc.Reflection.{Ctx}
use perfect_build_radar_touc.Reflection.Names.{
  name_cache_size, is_index, suffix, fresh_name, remember_name, with_suffix, resolve_index,
}

-- The cache does not answer for the index.
unfoldable pub IsMiss : Ctx → ℕ → Type 0
IsMiss ctx n =
    (is_index (ctx.name_cache (n % name_cache_size)).comp_index n
      && not (length (ctx.name_cache (n % name_cache_size)).name == 0))
    ≡ false

-- The first time, with the name in full.
resolve_index-miss :
    (vm : Vm) (ctx : Ctx) (n : ℕ) (number : ℤ) (max : ℕ) (name : Bytes)
    → IsMiss ctx n
    → (fresh_name vm ctx n max).0 ≡ some name
    → resolve_index vm ctx n number max
      ≡ (some (fit max (with_suffix name number)), remember_name (fresh_name vm ctx n max).1 n name)
unfolding resolve_index IsMiss
resolve_index-miss vm ctx n number max name miss e = rw (miss, e) refl

length-take_pos : (name : Bytes) → 0 < length name → (length (take 59 name) == 0) ≡ false
length-take_pos name h = ground (arith, length-take 59 name)

-- Once it is remembered, whatever the memory holds by then.
resolve_index-hit :
    (vm : Vm) (ctx : Ctx) (n : ℕ) (number : ℤ) (max : ℕ) (name : Bytes)
    → 0 < length name
    → (resolve_index vm (remember_name ctx n name) n number max).0
      ≡ some (fit max (take 59 name ++ suffix number))
unfolding resolve_index remember_name
resolve_index-hit vm ctx n number max name h =
    rw (==_refl (n % name_cache_size), ==_refl n, length-take_pos name h) refl

module _ (vm later : Vm) (ctx : Ctx) (n : ℕ) (number : ℤ) (max : ℕ) (name : Bytes) where
  second :
      IsMiss ctx n
      → (fresh_name vm ctx n max).0 ≡ some name
      → 0 < length name
      → (resolve_index later (resolve_index vm ctx n number max).1 n number max).0
        ≡ some (fit max (take 59 name ++ suffix number))
  second miss e h =
      rw (resolve_index-miss vm ctx n number max name miss e)
        (resolve_index-hit later (fresh_name vm ctx n max).1 n number max name h)

  first :
      IsMiss ctx n
      → (fresh_name vm ctx n max).0 ≡ some name
      → (resolve_index vm ctx n number max).0 ≡ some (fit max (with_suffix name number))
  first miss e = ap (λ r. r.0) (resolve_index-miss vm ctx n number max name miss e)

  -- A name of 1 to 59 bytes that was not in the cache is resolved to the same text the second time,
  -- whatever the memory holds by then, if its suffix fits behind it.
  resolve_index-again :
      IsMiss ctx n
      → (fresh_name vm ctx n max).0 ≡ some name
      → 0 < length name
      → length name ≤ 59
      → length name + length (suffix number) < 1024
      → (resolve_index later (resolve_index vm ctx n number max).1 n number max).0
        ≡ (resolve_index vm ctx n number max).0
  unfolding with_suffix
  resolve_index-again miss e h short room =
      second miss e h
      ∙ ap (λ s. some (fit max (s ++ suffix number))) (take_of_length 59 name short)
      ∙ ap (λ s. some (fit max s)) (sym (suffixed room))
      ∙ sym (first miss e)
    where
      suffixed :
          length name + length (suffix number) < 1024
          → with_suffix name number ≡ name ++ suffix number
      suffixed k = ground (arith, k)

text_length : Option Bytes → ℕ
text_length none = 0
text_length (some t) = length t

length-cut_name :
    (max : ℕ) (name : Bytes) → text_length (some (fit max (take 59 name ++ suffix (pos 0)))) ≤ 59
unfolding suffix text_length
length-cut_name max name = omega (
  arith,
  length-take (max - 1) (take 59 name ++ []),
  length-append (take 59 name) [],
  length-take 59 name,
)

length-with_suffix : (name : Bytes) → length (with_suffix name (pos 0)) ≡ length name
unfolding with_suffix suffix
length-with_suffix name = ground (arith, length-append name [])

length-whole_name :
    (max : ℕ) (name : Bytes)
    → length name < max
    → text_length (some (fit max (with_suffix name (pos 0)))) ≡ length name
unfolding text_length
length-whole_name max name h =
    omega (arith, length-take (max - 1) (with_suffix name (pos 0)), length-with_suffix name)

-- A name of 60 bytes or more and without a number, into a buffer that holds all of it, is another
-- text the second time: the cache has cut it at 59 bytes.
pub resolve_index-ne-again :
    (vm later : Vm) (ctx : Ctx) (n max : ℕ) (name : Bytes)
    → IsMiss ctx n
    → (fresh_name vm ctx n max).0 ≡ some name
    → 60 ≤ length name
    → length name < max
    → (resolve_index later (resolve_index vm ctx n (pos 0) max).1 n (pos 0) max).0
      ≢ (resolve_index vm ctx n (pos 0) max).0
resolve_index-ne-again vm later ctx n max name miss e long room same =
    let lengths = ap text_length (
      sym (second vm later ctx n (pos 0) max name miss e (omega (arith, long)))
      ∙ same
      ∙ first vm later ctx n (pos 0) max name miss e) in
    absurd (
      omega (arith, lengths, long, room, length-cut_name max name, length-whole_name max name room))
