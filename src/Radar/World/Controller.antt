-- ===== src/Radar/World/Controller.antt =====
-- `find_world` of source/daemon/radar_reader.c and the controller of the world that it leaves.
use perfect_build_radar_touc.Base.{
  ℕ, zero, suc, ◌≡◌, ◌≢◌, refl, Bool, true, not, ◌&&◌, arith, ◌==◌, if◌then◌else◌, ℤ, pos, ltb_int,
  if-split,
}
use perfect_build_radar_touc.Remote.{Vm}
use perfect_build_radar_touc.Radar.World.{
  Lookup, ptr, local_controller, clear_caches, fresh_caches, links_back, search_player,
  lookup_world, find_world,
}

-- A world that is set has a controller.
unfoldable pub HasController : Vm → Lookup → Type 0
HasController vm s = s.world ≢ 0 → local_controller vm s.local_player s.world ≢ 0

local_controller-ne :
    (vm : Vm) (candidate : ℕ)
    → links_back vm candidate ≡ true
    → local_controller vm candidate (ptr vm (ptr vm candidate 0x58) 0x78) ≢ 0
unfolding local_controller links_back
local_controller-ne vm candidate h = ground arith

zero-HasController : (vm : Vm) (s : Lookup) → s.world ≡ 0 → HasController vm s
unfolding HasController
zero-HasController vm s h = λ k. absurd (k h)

found-HasController :
    (vm : Vm) (s : Lookup) → local_controller vm s.local_player s.world ≢ 0 → HasController vm s
unfolding HasController
found-HasController vm s h = λ _. h

fresh_caches-local_player :
    (s : Lookup) (current : ℕ) → (fresh_caches s current).local_player ≡ s.local_player
unfolding fresh_caches clear_caches
fresh_caches-local_player s current = ground arith

module _ (find_instance : ℤ → ℕ × ℤ) (vm : Vm) where
  search_player-HasController :
      (b : ℕ) (s : Lookup) → s.world ≡ 0 → HasController vm (search_player find_instance vm b s)
  unfolding search_player
  search_player-HasController zero s h = zero-HasController vm s h
  search_player-HasController (suc b) s h =
      let candidate = (find_instance s.world_cursor).0 in
      let moved = record s { world_cursor = (find_instance s.world_cursor).1 } in
      let taken = record moved {
        local_player = candidate;
        world = ptr vm (ptr vm candidate 0x58) 0x78;
      } in
      let rest = search_player find_instance vm b moved in
      if-split (HasController vm) (ltb_int s.world_cursor (pos 0)) s
        (if links_back vm candidate then taken else rest) (λ _. zero-HasController vm s h)
        (λ _.
          if-split (HasController vm) (links_back vm candidate) taken rest
            (λ e. found-HasController vm taken (local_controller-ne vm candidate e))
            (λ _. search_player-HasController b moved h))

  lookup_world-HasController :
      (due ready : Bool) (s : Lookup)
      → s.world ≡ 0
      → HasController vm (lookup_world find_instance vm due ready s)
  unfolding lookup_world
  lookup_world-HasController due ready s h =
      let opened = record s { reflection = true } in
      let restarted = record opened { world_cursor = pos 0 } in
      let searched = search_player find_instance vm 64 opened in
      let looked = if ltb_int s.world_cursor (pos 0) then restarted else searched in
      if-split (HasController vm) (not due) s (if not s.reflection && not ready then s else looked)
        (λ _. zero-HasController vm s h)
        (λ _.
          if-split (HasController vm) (not s.reflection && not ready) s looked
            (λ _. zero-HasController vm s h)
            (λ _.
              if-split (HasController vm) (ltb_int s.world_cursor (pos 0)) restarted searched
                (λ _. zero-HasController vm restarted h)
                (λ _. search_player-HasController 64 opened h)))

  find_world-HasController :
      (due ready : Bool) (s : Lookup) → HasController vm (find_world find_instance vm due ready s)
  unfolding find_world
  find_world-HasController due ready s =
      let unset = record s { world = 0 } in
      let reset = record s { local_player = 0; world_cursor = pos 0; world = 0 } in
      let current = ptr vm (ptr vm s.local_player 0x58) 0x78 in
      let controller = local_controller vm s.local_player current in
      let kept = not (current == 0) && not (controller == 0) in
      let same = record (fresh_caches s current) { world = current } in
      let again = lookup_world find_instance vm due ready reset in
      if-split (HasController vm) (s.local_player == 0)
        (lookup_world find_instance vm due ready unset) (if kept then same else again)
        (λ _. lookup_world-HasController due ready unset refl)
        (λ _.
          if-split (HasController vm) kept same again
            (λ e.
              found-HasController vm same
                (rw (fresh_caches-local_player s current) (λ k. absurd (ground (arith, k, e)))))
            (λ _. lookup_world-HasController due ready reset refl))

-- For any state of the lookup and any object search: when `find_world` returns a world and not 0,
-- `local_controller` finds a controller for it with the local player that is left.
pub find_world-controller :
    (find_instance : ℤ → ℕ × ℤ) (vm : Vm) (due ready : Bool) (s : Lookup)
    → (find_world find_instance vm due ready s).world ≢ 0
    → local_controller vm
        (find_world find_instance vm due ready s).local_player
        (find_world find_instance vm due ready s).world
      ≢ 0
unfolding HasController
find_world-controller find_instance vm due ready s =
    find_world-HasController find_instance vm due ready s
