-- ===== src/Radar/Meta.antt =====
-- The metadata caches of radar_reader.c: `find_player_meta`, `store_player_meta`, `find_item_meta`
-- and `store_item_meta`. Both are arrays with a count, searched from the front; the model is the
-- list of the entries in use, over the type of what an entry holds.
pub mod Laws
pub mod Keeps
mod Tests
use mathlib.Core.Option
use mathlib.Core.Option.{Option}
use perfect_build_radar_touc.Base.{
  ℕ, ◌+◌, Bool, true, false, ◌&&◌, ◌||◌, List, [], ◌∷◌, ◌++◌, none, some, ltb, ◌==◌, if◌then◌else◌,
  length, Bytes, ℤ, fit,
}

pub record Entry {ℓ} (V : Type ℓ) : Type ℓ where
  pub actor : ℕ
  pub value : V
  pub valid : Bool

module _ {ℓ} {V : Type ℓ} where
  -- The first valid entry of `actor`.
  unfoldable pub find_meta : List (Entry V) → ℕ → Option V
  find_meta [] actor = none
  find_meta (e ∷ es) actor =
      if e.valid && e.actor == actor then some e.value else find_meta es actor

  abbrev pub entry_for : ℕ → V → Entry V
  entry_for actor value = record { actor = actor; value = value; valid = true }

  -- The first entry of `actor` overwritten, valid or not; `none` if there is none.
  unfoldable pub overwrite : List (Entry V) → ℕ → V → Option (List (Entry V))
  overwrite [] actor value = none
  overwrite (e ∷ es) actor value =
      if e.actor == actor
      then some (entry_for actor value ∷ es)
      else Option.map (λ rest. e ∷ rest) (overwrite es actor value)

  -- A new actor takes the next place while there is one.
  unfoldable pub store_meta : ℕ → List (Entry V) → ℕ → V → List (Entry V)
  unfolding overwrite
  store_meta size es actor value = elim (overwrite es actor value) [
    | some es' ↦ es'
    | none ↦ if ltb (length es) size then es ++ entry_for actor value ∷ [] else es
  ]

pub record PlayerMeta : Type 0 where
  pub team_id : ℕ
  pub is_bot : ℕ
  pub name : Bytes

pub record ItemMeta : Type 0 where
  pub item_id : ℤ
  pub category : ℕ
  pub name : Bytes

abbrev pub player_meta_cache_size : ℕ
player_meta_cache_size = 512

abbrev pub item_meta_cache_size : ℕ
item_meta_cache_size = 256

-- `strncpy` into 32 bytes with a NUL behind it cuts the name.
unfoldable pub store_player_meta :
    List (Entry PlayerMeta) → ℕ → ℕ → ℕ → Bytes → List (Entry PlayerMeta)
unfolding store_meta
store_player_meta cache actor team_id is_bot name =
    store_meta player_meta_cache_size cache actor
      (record { team_id = team_id; is_bot = is_bot; name = fit 32 name })

unfoldable pub store_item_meta : List (Entry ItemMeta) → ℕ → ℤ → ℕ → Bytes → List (Entry ItemMeta)
unfolding store_meta
store_item_meta cache actor item_id category name =
    store_meta item_meta_cache_size cache actor
      (record { item_id = item_id; category = category; name = fit 32 name })
