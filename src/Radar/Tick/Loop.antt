-- ===== src/Radar/Tick/Loop.antt =====
-- The loop over the characters: its bounds, and the rule for teammates.
use perfect_build_radar_touc.Base.{
  ℕ, suc, ◌-◌, ◌≤◌, ◌<◌, ◌≡◌, refl, ap, inl, inr, not, ◌||◌, List, [], ◌∷◌, arith, ◌==◌,
  if◌then◌else◌, if-split, length, All, add64, le, Bool-cases, Option-cases,
}
use perfect_build_radar_touc.Remote.{Vm}
use perfect_build_radar_touc.Radar.Meta.{Entry, PlayerMeta}
use perfect_build_radar_touc.Radar.Meta.Keeps.{Keeps}
use perfect_build_radar_touc.Radar.Tick.{Float, Vec, raw, position}
use perfect_build_radar_touc.Radar.Tick.Players.{
  Player, max_players, player_state, meta_of, Sight, skipped, lost, shown, at_origin, player_of,
  see_character, tick_players,
}
use perfect_build_radar_touc.Radar.Tick.Bots.{IsRuled, IsRuledValue, IsRuledMeta, meta_of-IsRuled}

-- A player whose bot flag is as the rule wants it.
unfoldable pub IsRuledPlayer : {F : Type 0} → ℕ → Player F → Type 0
IsRuledPlayer l p = IsRuled l p.team_id p.is_bot

unfoldable pub IsSight : {F : Type 0} → ℕ → Sight F → Type 0
IsSight l skipped = Unit
IsSight l lost = Unit
IsSight l (shown p cache) = IsRuledPlayer l p × All (Keeps (IsRuledValue l)) cache

-- What is left of the loop over `n` characters.
unfoldable pub IsTicked :
    {F : Type 0} → (l room n : ℕ) → List ℕ × List (Player F) × List (Entry PlayerMeta) → Type 0
IsTicked l room n r =
    (length r.0 ≡ n)
    × (length r.1 ≤ room)
    × All (IsRuledPlayer l) r.1
    × All (Keeps (IsRuledValue l)) r.2

module _ (fl : Float) (vm : Vm) where
  skipped-IsSight : (l : ℕ) → IsSight {F = fl.F} l skipped
  unfolding IsSight
  skipped-IsSight l = tt

  lost-IsSight : (l : ℕ) → IsSight {F = fl.F} l lost
  unfolding IsSight
  lost-IsSight l = tt

  shown-IsSight :
      (camera_pos pos : Vec fl.F) (l other st : ℕ) (m : PlayerMeta × List (Entry PlayerMeta))
      → IsRuledMeta l m
      → IsSight l (shown (player_of fl vm camera_pos pos other st m.0) m.1)
  unfolding IsSight IsRuledPlayer player_of IsRuledMeta IsRuledValue
  shown-IsSight camera_pos pos l other st m h = h

  see_character-IsSight :
      (camera_pos : Vec fl.F) (l pawn other : ℕ) (cache : List (Entry PlayerMeta))
      → All (Keeps (IsRuledValue l)) cache
      → IsSight l (see_character fl vm camera_pos l pawn other cache)
  unfolding see_character
  see_character-IsSight camera_pos l pawn other cache h =
      let st = player_state vm other in
      let m = meta_of vm l other st cache in
      let good = meta_of-IsRuled vm l other st cache h in
      elim (Bool-cases (other == 0 || other == pawn)) [
        | inl e ↦ rw (e, see_character) (skipped-IsSight l)
        | inr e ↦ elim (Option-cases (position fl vm other)) [
          | inl gone ↦ rw (e, gone, see_character) (lost-IsSight l)
          | inr pos ↦
              let player : Sight fl.F = shown (player_of fl vm camera_pos pos.0 other st m.0) m.1 in
              let dead = le (raw vm (add64 other 0x2be8) 1) == 2 in
              rw (e, pos.1, see_character)
                (if-split (IsSight l) (at_origin fl vm pos.0) skipped
                  (if not (le (raw vm (add64 other 0xe7c) 1) == 0)
                    then skipped
                    else if dead
                    then skipped
                    else player)
                  (λ _. skipped-IsSight l)
                  (λ _.
                    if-split (IsSight l) (not (le (raw vm (add64 other 0xe7c) 1) == 0)) skipped
                      (if dead then skipped else player) (λ _. skipped-IsSight l)
                      (λ _.
                        if-split (IsSight l) dead skipped player (λ _. skipped-IsSight l)
                          (λ _. shown-IsSight camera_pos pos.0 l other st m good))))
        ]
      ]

  -- A character, and the loop behind it.
  seen-IsTicked :
      (l room n other : ℕ) (s : Sight fl.F) (cache : List (Entry PlayerMeta))
      (rest : ℕ → List (Entry PlayerMeta) → List ℕ × List (Player fl.F) × List (Entry PlayerMeta))
      → 0 < room
      → IsSight l s
      → All (Keeps (IsRuledValue l)) cache
      → ((room : ℕ) (c : List (Entry PlayerMeta))
          → All (Keeps (IsRuledValue l)) c
          → IsTicked {F = fl.F} l room n (rest room c))
      → IsTicked {F = fl.F} l room (suc n) (elim s [
        | skipped ↦ (other ∷ (rest room cache).0, (rest room cache).1, (rest room cache).2)
        | lost ↦ (0 ∷ (rest room cache).0, (rest room cache).1, (rest room cache).2)
        | shown p cache' ↦ (
          other ∷ (rest (room - 1) cache').0,
          p ∷ (rest (room - 1) cache').1,
          (rest (room - 1) cache').2,
        )
      ])
  unfolding IsSight IsTicked
  seen-IsTicked l room n other skipped cache rest hr hs hc h =
      let k = h room cache hc in (ap suc k.0, k.1, k.2, k.3)
  seen-IsTicked l room n other lost cache rest hr hs hc h =
      let k = h room cache hc in (ap suc k.0, k.1, k.2, k.3)
  seen-IsTicked l room n other (shown p cache') cache rest hr hs hc h =
      let k = h (room - 1) cache' hs.1 in (ap suc k.0, omega (arith, hr, k.1), (hs.0, k.2), k.3)

  full-IsTicked :
      (l : ℕ) (others : List ℕ) (room : ℕ) (cache : List (Entry PlayerMeta))
      → All (Keeps (IsRuledValue l)) cache
      → IsTicked {F = fl.F} l room (length others) (others, [], cache)
  unfolding IsTicked
  full-IsTicked l others room cache h = (refl, omega arith, tt, h)

  pub ticked :
      (camera_pos : Vec fl.F) (l pawn room : ℕ) (characters : List ℕ)
      (cache : List (Entry PlayerMeta))
      → All (Keeps (IsRuledValue l)) cache
      → IsTicked {F = fl.F} l room
          (length characters)
          (tick_players fl vm camera_pos l pawn room characters cache)
  unfolding tick_players
  ticked camera_pos l pawn room [] cache h = full-IsTicked l [] room cache h
  ticked camera_pos l pawn room (other ∷ others) cache h =
      let seen = see_character fl vm camera_pos l pawn other cache in
      let rest = λ (room : ℕ) (c : List (Entry PlayerMeta)).
        tick_players fl vm camera_pos l pawn room others c in
      elim (Bool-cases (room == 0)) [
        | inl e ↦ rw e (full-IsTicked l (other ∷ others) room cache h)
        | inr e ↦ rw e (
            seen-IsTicked l room (length others) other seen cache rest (ground (arith, e))
              (see_character-IsSight camera_pos l pawn other cache h) h
              (λ r c hc. ticked camera_pos l pawn r others c hc))
      ]

-- For any target, floating-point unit and camera: when no entry of the player cache is a bot of the
-- local team, where that is known, the loop of `radar_tick` over the characters keeps it so, and no
-- player that is shown is a bot of the local team; the array of the characters keeps its length, and
-- at most 100 players are shown.
pub tick_players-IsRuled :
    (fl : Float) (vm : Vm) (camera_pos : Vec fl.F) (l pawn : ℕ) (characters : List ℕ)
    (cache : List (Entry PlayerMeta))
    → All (Keeps (IsRuledValue l)) cache
    → (length (tick_players fl vm camera_pos l pawn max_players characters cache).0
        ≡ length characters)
      × (length (tick_players fl vm camera_pos l pawn max_players characters cache).1 ≤ max_players)
      × All (IsRuledPlayer l) (tick_players fl vm camera_pos l pawn max_players characters cache).1
      × All
          (Keeps (IsRuledValue l))
          (tick_players fl vm camera_pos l pawn max_players characters cache).2
unfolding IsTicked
tick_players-IsRuled fl vm camera_pos l pawn characters cache h =
    ticked fl vm camera_pos l pawn max_players characters cache h
