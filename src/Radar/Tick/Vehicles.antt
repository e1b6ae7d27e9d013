-- ===== src/Radar/Tick/Vehicles.antt =====
-- The loop of `radar_tick` over the vehicles.
use perfect_build_radar_touc.Base.{
  ℕ, ◌-◌, Bool, not, ◌&&◌, List, [], ◌∷◌, none, some, ◌==◌, if◌then◌else◌, length, Bytes, add64, le,
  codes,
}
use perfect_build_radar_touc.Remote.{Vm}
use perfect_build_radar_touc.Radar.World.{ptr}
use perfect_build_radar_touc.Radar.Items.{contains_any, resolve_vehicle_name}
use perfect_build_radar_touc.Radar.Classes.{Resolver, ClassEntry, off_uobject_name}
use perfect_build_radar_touc.Radar.Tick.{Float, Vec, raw, read_float, position, distance}

-- `radar_vehicle_t`.
pub record Vehicle (F : Type 0) : Type 0 where
  pub pos : Vec F
  pub distance : F
  pub speed : F
  pub health_state : ℕ
  pub can_boost : ℕ
  pub team_id : ℕ
  pub name : Bytes

abbrev pub max_vehicles : ℕ
max_vehicles = 30

-- The name that the class cache holds for a class; there is none where the class has no entry.
unfoldable pub cached_class_name : List ClassEntry → (cls : ℕ) → Bytes
cached_class_name [] cls = []
cached_class_name (e ∷ es) cls =
    let rest = cached_class_name es cls in if e.class_ptr == cls then e.name else rest

-- The name of the class of a vehicle; a lookup that fails leaves what it leaves in the buffer.
unfoldable pub vehicle_class : Resolver → List ClassEntry → (cls : ℕ) → Bytes
vehicle_class r classes cls =
    let known = cached_class_name classes cls in
    let looked_up : Bytes = elim r [
      | none ↦ known
      | some resolve ↦ (resolve (add64 cls off_uobject_name)).1
    ] in
    if length known == 0 && not (cls == 0) then looked_up else known

-- Whether a vehicle flies.
unfoldable pub is_air : Bytes → Bool
is_air name = contains_any name (codes "Airplane" ∷ codes "Glider" ∷ codes "Helicopter" ∷ [])

module _ (fl : Float) (r : Resolver) (vm : Vm) where
  unfoldable pub vehicle_of :
      (place camera_pos : Vec fl.F) → (vactor : ℕ) → List ClassEntry → Vehicle fl.F
  vehicle_of place camera_pos vactor classes =
      let name = resolve_vehicle_name (vehicle_class r classes (ptr vm vactor 0x10)) 32 in
      record {
        pos = place;
        distance = distance fl place camera_pos;
        speed = fl.mul (fl.abs (read_float fl vm (add64 vactor 0xcd0))) (fl.lit 36);
        health_state = le (raw vm (add64 vactor 0x18c9) 1);
        can_boost = if is_air name then 1 else le (raw vm (add64 vactor 0x1978) 1);
        team_id = le (raw vm (add64 vactor 0x1574) 1);
        name = name;
      }

  -- The loop with `room` vehicles to go: the array that is left and the vehicles.
  unfoldable pub tick_vehicles :
      (camera_pos : Vec fl.F)
      → (room : ℕ) → (vehicles : List ℕ) → List ClassEntry
      → List ℕ × List (Vehicle fl.F)
  tick_vehicles camera_pos room [] classes = ([], [])
  tick_vehicles camera_pos room (vactor ∷ vactors) classes =
      let passed = tick_vehicles camera_pos room vactors classes in
      let rest = tick_vehicles camera_pos (room - 1) vactors classes in
      let seen : List ℕ × List (Vehicle fl.F) = elim (position fl vm vactor) [
        | none ↦ (0 ∷ passed.0, passed.1)
        | some place ↦
            if fl.lt (fl.lit 800000) (distance fl place camera_pos)
            then (vactor ∷ passed.0, passed.1)
            else (vactor ∷ rest.0, vehicle_of place camera_pos vactor classes ∷ rest.1)
      ] in
      if room == 0
      then (vactor ∷ vactors, [])
      else if vactor == 0
      then (vactor ∷ passed.0, passed.1)
      else seen
