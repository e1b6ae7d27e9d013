-- ===== src/Radar/World.antt =====
-- The world lookup of radar_reader.c: `ptr`, `array`, `local_controller` and `find_world`. The
-- target is a snapshot for one call, and the object search of ue4_reflection.c is an argument. The
-- clock is the flag that a new lookup is due.
pub mod Controller
mod Tests
use perfect_build_radar_touc.Base.{
  ℕ, zero, suc, ◌-◌, ◌+◌, Bool, true, false, not, ◌&&◌, ◌||◌, List, [], ◌∷◌, Option, none, some,
  ltb, leb, ◌==◌, if◌then◌else◌, take, drop, Bytes, add64, u64_mod, le, ℤ, pos, negsuc, signed32,
  ltb_int, nat_of,
}
use perfect_build_radar_touc.Remote.{Vm, fetch, read_ptr, validate_ptr}

unfoldable pub ptr : Vm → ℕ → ℕ → ℕ
ptr vm object offset =
    let value = read_ptr vm (object + offset) in
    if not (validate_ptr object) || ltb (u64_mod - 1 - offset) object
    then 0
    else if validate_ptr value
    then value
    else 0

-- The checks on the header of a `TArray`, and its data and count.
unfoldable pub array_header : Bytes → (limit : ℕ) → Option (ℕ × ℕ)
array_header a limit =
    let data_ptr = le (take 8 a) in
    let count = signed32 (le (take 4 (drop 8 a))) in
    let capacity = signed32 (le (take 4 (drop 12 a))) in
    if ltb_int count (pos 0)
      || ltb_int capacity count
      || ltb_int (pos limit) count
      || ltb_int (pos 1000000) capacity
    then none
    else if not (nat_of count == 0) && not (validate_ptr data_ptr)
    then none
    else some (data_ptr, nat_of count)

unfoldable pub array : Vm → ℕ → ℕ → (limit : ℕ) → Option (ℕ × ℕ)
array vm object offset limit =
    if not (validate_ptr object)
    then none
    else elim (fetch vm (add64 object offset) 16) [ none ↦ none | some a ↦ array_header a limit ]

-- The static variables of the lookup, and how many entries the caches hold. `reflection` says
-- whether there is a reflection context.
pub record Lookup : Type 0 where
  pub local_player : ℕ
  pub world : ℕ
  pub world_cursor : ℤ
  pub reflection : Bool
  pub character_count : ℕ
  pub vehicle_count : ℕ
  pub item_count : ℕ
  pub class_count : ℕ
  pub player_meta_count : ℕ
  pub item_meta_count : ℕ

-- The controller that the local player of the game instance names.
unfoldable pub instance_controller : Vm → ℕ → ℕ
instance_controller vm w = elim (array vm (ptr vm w 0x470) 0x48 16) [
  | none ↦ 0
  | some players ↦ if players.1 == 0 then 0 else ptr vm (ptr vm players.0 0) 0x30
]

unfoldable pub local_controller : Vm → (local_player w : ℕ) → ℕ
local_controller vm local_player w =
    let pc = ptr vm local_player 0x30 in
    if not (local_player == 0)
      && ptr vm (ptr vm local_player 0x58) 0x78 == w
      && not (pc == 0)
      && ptr vm pc 0x518 == local_player
    then pc
    else instance_controller vm w

-- The caches of another world are dropped.
unfoldable pub clear_caches : Lookup → Lookup
clear_caches s = record s {
  character_count = 0;
  vehicle_count = 0;
  item_count = 0;
  class_count = 0;
  player_meta_count = 0;
  item_meta_count = 0;
}

unfoldable pub fresh_caches : Lookup → (current : ℕ) → Lookup
fresh_caches s current =
    if not (s.world == 0) && not (s.world == current) then clear_caches s else s

-- The candidate has a world and a controller that points back to it.
unfoldable pub links_back : Vm → (candidate : ℕ) → Bool
links_back vm candidate =
    not (candidate == 0)
    && not (ptr vm (ptr vm candidate 0x58) 0x78 == 0)
    && not (ptr vm candidate 0x30 == 0)
    && ptr vm (ptr vm candidate 0x30) 0x518 == candidate

-- The batched search: `find_instance` is `ue4r_find_instance` for "LocalPlayer", with the cursor
-- that it leaves. The fuel counts the rounds.
unfoldable pub search_player : (ℤ → ℕ × ℤ) → Vm → ℕ → Lookup → Lookup
search_player find_instance vm zero s = s
search_player find_instance vm (suc b) s =
    let found = find_instance s.world_cursor in
    let candidate = found.0 in
    let moved = record s { world_cursor = found.1 } in
    let rest = search_player find_instance vm b moved in
    let taken = record moved {
      local_player = candidate;
      world = ptr vm (ptr vm candidate 0x58) 0x78;
    } in
    if ltb_int s.world_cursor (pos 0) then s else if links_back vm candidate then taken else rest

-- From the time check on. `ready` says whether `ue4r_init` gives a context that is ready.
unfoldable pub lookup_world : (ℤ → ℕ × ℤ) → Vm → (due ready : Bool) → Lookup → Lookup
lookup_world find_instance vm due ready s =
    let opened = record s { reflection = true } in
    if not due
    then s
    else if not s.reflection && not ready
    then s
    else if ltb_int s.world_cursor (pos 0)
    then record opened { world_cursor = pos 0 }
    else search_player find_instance vm 64 opened

-- The state that is left; the result is its `world`.
unfoldable pub find_world : (ℤ → ℕ × ℤ) → Vm → (due ready : Bool) → Lookup → Lookup
find_world find_instance vm due ready s =
    let current = ptr vm (ptr vm s.local_player 0x58) 0x78 in
    let kept = not (current == 0) && not (local_controller vm s.local_player current == 0) in
    if s.local_player == 0
    then lookup_world find_instance vm due ready (record s { world = 0 })
    else if kept
    then record (fresh_caches s current) { world = current }
    else lookup_world find_instance vm due ready
        (record s { local_player = 0; world_cursor = pos 0; world = 0 })
