-- ===== src/Radar/Classes.antt =====
-- The class cache and the actor scan of radar_reader.c: `classify_class` and
-- `scan_persistent_level`. The name lookup of ue4_reflection.c is an argument: for an address it
-- gives its result and the name that it leaves in the buffer; there is none without a context.
pub mod Cache
pub mod Level
mod Tests
use perfect_build_radar_touc.Base.{
  ℕ, zero, suc, ◌-◌, ◌+◌, ◌*◌, Bool, true, false, not, ◌&&◌, ◌||◌, List, [], ◌∷◌, ◌++◌, Option,
  none, some, ltb, leb, ◌==◌, if◌then◌else◌, take, drop, length, fit, Bytes, add64, le, codes,
  contains,
}
use perfect_build_radar_touc.Remote.{Vm, fetch, validate_ptr}
use perfect_build_radar_touc.Radar.Items.{contains_any}
use perfect_build_radar_touc.Radar.World.{ptr, array}

-- `cls_type_t`.
pub data ClassType : Type 0 where
  cls_unknown : ClassType
  cls_ignore : ClassType
  cls_player : ClassType
  cls_vehicle : ClassType
  cls_item : ClassType

-- `class_cache_entry_t`. The name is for the vehicles of `radar_tick`.
pub record ClassEntry : Type 0 where
  pub class_ptr : ℕ
  pub name : Bytes
  pub type : ClassType

abbrev pub class_cache_size : ℕ
class_cache_size = 4096

abbrev pub Resolver : Type 0
Resolver = Option (ℕ → Bool × Bytes)

abbrev pub off_uobject_name : ℕ
off_uobject_name = 0x18

-- The name of the class, or else that of the sample actor.
unfoldable pub class_name : Resolver → (cls actor_sample : ℕ) → Bytes
class_name none cls actor_sample = []
class_name (some resolve) cls actor_sample =
    let own = resolve (cls + off_uobject_name) in
    if own.0
    then own.1
    else if actor_sample == 0
    then own.1
    else (resolve (actor_sample + off_uobject_name)).1

-- The tests on the name of the superclass.
unfoldable pub classify_super : Bytes → ClassType
classify_super sname =
    if contains_any sname (codes "Character" ∷ codes "PlayerPawn" ∷ [])
      && not (
          contains_any sname
            (codes "Controller" ∷ codes "Start" ∷ codes "State" ∷ codes "Camera" ∷ []))
    then cls_player
    else if contains_any sname
        (codes "Vehicle" ∷ codes "VH_" ∷ codes "Airplane" ∷ codes "Plane" ∷ codes "Glider" ∷ [])
    then (if contains_any sname (codes "Wheel" ∷ codes "Movement" ∷ codes "Anim" ∷ [])
        then cls_ignore
        else cls_vehicle)
    else if contains_any sname (codes "PickUp" ∷ codes "Wrapper" ∷ [])
    then cls_item
    else cls_ignore

-- The tests on the name; `super` is what the superclass gives.
unfoldable pub classify_name : Bytes → (super : ClassType) → ClassType
classify_name name super =
    if contains_any name (codes "Character" ∷ codes "PlayerPawn" ∷ [])
      && not (
          contains_any name (
            codes "Controller"
            ∷ codes "Start"
            ∷ codes "State"
            ∷ codes "Camera"
            ∷ codes "AISpawner"
            ∷ codes "Movement"
            ∷ codes "AnimInstance"
            ∷ []))
    then cls_player
    else if contains_any name (
        codes "Vehicle"
        ∷ codes "VH_"
        ∷ codes "Buggy"
        ∷ codes "Dacia"
        ∷ codes "UAZ"
        ∷ codes "Motorcycle"
        ∷ codes "Bike"
        ∷ codes "Boat"
        ∷ codes "PickUp_"
        ∷ codes "Airplane"
        ∷ codes "Plane"
        ∷ codes "Glider"
        ∷ codes "Helicopter"
        ∷ codes "C130"
        ∷ [])
    then (if contains_any name
          (codes "Wheel" ∷ codes "Movement" ∷ codes "Anim" ∷ codes "Spawner" ∷ codes "Manager" ∷ [])
        then cls_ignore
        else cls_vehicle)
    else if contains_any name (codes "PickUp" ∷ codes "Wrapper" ∷ [])
    then (if contains_any name (codes "Destructible" ∷ codes "Component" ∷ [])
        then cls_ignore
        else cls_item)
    else super

unfoldable pub super_type : Resolver → Vm → ℕ → ClassType
super_type none vm cls = cls_ignore
super_type (some resolve) vm cls =
    let super_cls = ptr vm cls 0x30 in
    let sname = resolve (super_cls + off_uobject_name) in
    if not (super_cls == 0) && sname.0 then classify_super sname.1 else cls_ignore

unfoldable pub find_class : List ClassEntry → ℕ → Option ClassType
find_class [] cls = none
find_class (e ∷ es) cls =
    let rest = find_class es cls in if e.class_ptr == cls then some e.type else rest

-- The entry is added while there is room.
unfoldable pub remember : List ClassEntry → ℕ → ClassType → Bytes → List ClassEntry
remember es cls type name =
    if ltb (length es) class_cache_size
    then es ++ (record { class_ptr = cls; name = fit 32 name; type = type }) ∷ []
    else es

-- The type, and the cache that is left.
unfoldable pub classify_class :
    Resolver → Vm → List ClassEntry → (cls actor_sample : ℕ) → ClassType × List ClassEntry
classify_class resolver vm es cls actor_sample =
    let name = class_name resolver cls actor_sample in
    let type = classify_name name (super_type resolver vm cls) in
    if cls == 0 then (cls_ignore, es) else elim (find_class es cls) [
      | none ↦ (type, remember es cls type name)
      | some known ↦ (known, es)
    ]
