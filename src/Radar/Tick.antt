-- ===== src/Radar/Tick.antt =====
-- `radar_tick` of radar_reader.c: `vec`, `position` and the distance here, then what is shown of the
-- characters, vehicles and items, and the frame. The floating-point operations of the machine and of
-- math.h are an argument, since their rounding is not part of the source.
pub mod Players
pub mod Bots
pub mod Loop
pub mod Teammates
pub mod Loot
pub mod Vehicles
pub mod Frame
pub mod Whole
pub mod Sample
mod Tests
use perfect_build_radar_touc.Base.{
  ℕ, ◌+◌, ◌*◌, Bool, true, false, not, ◌&&◌, List, [], ◌∷◌, Option, none, some, if◌then◌else◌,
  replicate, take, drop, Bytes, add64, le,
}
use perfect_build_radar_touc.Remote.{Vm, read, fetch, validate_ptr}
use perfect_build_radar_touc.Radar.World.{ptr}

-- `float`: `of_bits` reads its four bytes, and `lit n` is the constant n / 1000.
pub record Float : Type 1 where
  pub F : Type 0
  pub of_bits : Bytes → F
  pub lit : ℕ → F
  pub add : F → F → F
  pub sub : F → F → F
  pub mul : F → F → F
  pub div : F → F → F
  pub neg : F → F
  pub sqrt : F → F
  pub abs : F → F
  pub sin : F → F
  pub cos : F → F
  pub lt : F → F → Bool
  pub leq : F → F → Bool
  pub is_finite : F → Bool
  pub pi : F

-- `rvec3_t`.
pub record Vec (F : Type 0) : Type 0 where
  pub x : F
  pub y : F
  pub z : F

-- What a read leaves in `len` bytes that were zero; its result is dropped.
unfoldable pub raw : Vm → (addr len : ℕ) → Bytes
raw vm addr len = (read vm addr (replicate len 0) len).1

module _ (fl : Float) where
  unfoldable pub read_float : Vm → (addr : ℕ) → fl.F
  read_float vm addr = fl.of_bits (raw vm addr 4)

  abbrev pub vec_of : Bytes → Vec fl.F
  vec_of v = record {
    x = fl.of_bits (take 4 v);
    y = fl.of_bits (take 4 (drop 4 v));
    z = fl.of_bits (take 4 (drop 8 v));
  }

  abbrev pub finite_vec : Vec fl.F → Bool
  finite_vec v = fl.is_finite v.x && fl.is_finite v.y && fl.is_finite v.z

  unfoldable pub vec : Vm → (object offset : ℕ) → Option (Vec fl.F)
  vec vm object offset =
      let read : Option (Vec fl.F) = elim (fetch vm (add64 object offset) 12) [
        | none ↦ none
        | some v ↦ if finite_vec (vec_of v) then some (vec_of v) else none
      ] in
      if validate_ptr object then read else none

  unfoldable pub position : Vm → (actor : ℕ) → Option (Vec fl.F)
  position vm actor = vec vm (ptr vm actor 0x208) 0x1e4

  unfoldable pub distance : Vec fl.F → (camera_pos : Vec fl.F) → fl.F
  distance pos camera_pos =
      let dx = fl.sub pos.x camera_pos.x in
      let dy = fl.sub pos.y camera_pos.y in
      let dz = fl.sub pos.z camera_pos.z in
      fl.div (fl.sqrt (fl.add (fl.add (fl.mul dx dx) (fl.mul dy dy)) (fl.mul dz dz)))
        (fl.lit 100000)

  -- A point above or below another.
  abbrev pub raised : Vec fl.F → fl.F → Vec fl.F
  raised v up = record v { z = fl.add v.z up }

  abbrev pub lowered : Vec fl.F → fl.F → Vec fl.F
  lowered v down = record v { z = fl.sub v.z down }

  -- A point to the left or to the right of a position, above its ground.
  abbrev pub left_of : Vec fl.F → (right_x right_y side up : fl.F) → Vec fl.F
  left_of pos right_x right_y side up = record {
    x = fl.sub pos.x (fl.mul right_x side);
    y = fl.sub pos.y (fl.mul right_y side);
    z = fl.add pos.z up;
  }

  abbrev pub right_of : Vec fl.F → (right_x right_y side up : fl.F) → Vec fl.F
  right_of pos right_x right_y side up = record {
    x = fl.add pos.x (fl.mul right_x side);
    y = fl.add pos.y (fl.mul right_y side);
    z = fl.add pos.z up;
  }

  -- A limb: three bones, each below the one before.
  abbrev pub limb : Vec fl.F → (upper lower : fl.F) → List (Vec fl.F)
  limb root upper lower = root ∷ lowered root upper ∷ lowered (lowered root upper) lower ∷ []
