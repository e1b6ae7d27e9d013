-- ===== src/Radar/Tick/Sample.antt =====
-- A machine whose floats are whole numbers.
use perfect_build_radar_touc.Base.{ℕ, ◌+◌, ◌-◌, ◌*◌, ◌/◌, true, ltb, leb, le}
use perfect_build_radar_touc.Radar.Tick.{Float, Vec}

abbrev pub whole : Float
whole = record {
  F = ℕ;
  of_bits = le;
  lit = λ n. n / 1000;
  add = λ a b. a + b;
  sub = λ a b. a - b;
  mul = λ a b. a * b;
  div = λ a b. a / b;
  neg = λ a. a;
  sqrt = λ a. a;
  abs = λ a. a;
  sin = λ a. a;
  cos = λ a. a;
  lt = ltb;
  leq = leb;
  is_finite = λ a. true;
  pi = 3;
}

abbrev pub origin : Vec ℕ
origin = record { x = 0; y = 0; z = 0 }
