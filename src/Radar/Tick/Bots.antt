-- ===== src/Radar/Tick/Bots.antt =====
-- The rule that a teammate is no bot, for what is read and what is cached.
use perfect_build_radar_touc.Base.{
  refl, ℕ, ◌≡◌, ◌≢◌, ◌⊎◌, ==_iff, inl, inr, List, arith, ◌==◌, All, fit, Bool-cases, Option-cases,
}
use perfect_build_radar_touc.Remote.{Vm}
use perfect_build_radar_touc.Radar.Meta.{
  Entry, PlayerMeta, find_meta, store_player_meta, player_meta_cache_size,
}
use perfect_build_radar_touc.Radar.Meta.Keeps.{Keeps, store_meta-Keeps, find_meta-Keeps}
use perfect_build_radar_touc.Radar.Tick.Players.{no_teammate_bot, read_meta, meta_of}

-- Unless the local team is unknown or another one, the bot flag is 0.
unfoldable pub IsRuled : (local_team team_id is_bot : ℕ) → Type 0
IsRuled local_team team_id is_bot = (local_team ≡ 0) ⊎ ((team_id ≢ local_team) ⊎ (is_bot ≡ 0))

-- The same of metadata.
unfoldable pub IsRuledValue : ℕ → PlayerMeta → Type 0
IsRuledValue local_team m = IsRuled local_team m.team_id m.is_bot

no_teammate_bot-IsRuled : (l t b : ℕ) → IsRuled l t (no_teammate_bot l t b)
unfolding IsRuled no_teammate_bot
no_teammate_bot-IsRuled l t b = elim (Bool-cases (l == 0)) [
  | inl unknown ↦ inl ((==_iff l 0).0 unknown)
  | inr known ↦ elim (Bool-cases (t == l)) [
    | inl own ↦ rw (known, own) (inr (inr refl))
    | inr other ↦ inr (inl (λ e. ground (arith, other, e)))
  ]
]

read_meta-IsRuled : (vm : Vm) (l st : ℕ) → IsRuledValue l (read_meta vm l st)
unfolding read_meta IsRuledValue
read_meta-IsRuled vm l st = elim (Bool-cases (st == 0)) [
  | inl e ↦ rw (e, read_meta) (no_teammate_bot-IsRuled l 0 0)
  | inr e ↦ rw (e, read_meta) (no_teammate_bot-IsRuled l _ _)
]

cut-IsRuled :
    (l : ℕ) (m : PlayerMeta)
    → IsRuledValue l m
    → IsRuledValue l (record { team_id = m.team_id; is_bot = m.is_bot; name = fit 32 m.name })
unfolding IsRuledValue
cut-IsRuled l m h = h

-- What a character's metadata come to.
unfoldable pub IsRuledMeta : ℕ → PlayerMeta × List (Entry PlayerMeta) → Type 0
IsRuledMeta l r = IsRuledValue l r.0 × All (Keeps (IsRuledValue l)) r.1

pub meta_of-IsRuled :
    (vm : Vm) (l other st : ℕ) (cache : List (Entry PlayerMeta))
    → All (Keeps (IsRuledValue l)) cache
    → IsRuledMeta l (meta_of vm l other st cache)
unfolding meta_of store_player_meta IsRuledMeta
meta_of-IsRuled vm l other st cache h = elim (Option-cases (find_meta cache other)) [
  | inr m ↦ rw (m.1, meta_of) (find_meta-Keeps (IsRuledValue l) cache other m.0 h m.1, h)
  | inl e ↦
      let m = read_meta vm l st in
      let good = read_meta-IsRuled vm l st in
      rw (e, meta_of)
        (
          good,
          store_meta-Keeps (IsRuledValue l) player_meta_cache_size cache other
              (record { team_id = m.team_id; is_bot = m.is_bot; name = fit 32 m.name }) h
              (cut-IsRuled l m good),
        )
]
