-- ===== src/Remote/Text.antt =====
-- `rm_read_string`: the text it returns, against the string that lies in the target's memory.
mod Cut
mod Loop
use perfect_build_radar_touc.Base.{
  ℕ, ◌+◌, ◌-◌, ◌≤◌, ◌<◌, ◌^◌, ◌≡◌, refl, ◌∙◌, ap, Bool, true, false, [], arith, inl, inr, length,
  ◌==◌, if◌then◌else◌, Bool-cases, Option-cases, Bytes, All,
}
use perfect_build_radar_touc.Remote.{Vm, read_chunks, read_string}
use perfect_build_radar_touc.Remote.Memory.{window, Maps}
use Loop.{read_string_lem, read_chunks-IsText, read_chunks-eq-cut}
pub use Cut.{cut, NotNul}

-- Whatever the kernel call returns, the text that `rm_read_string` leaves in a buffer of `max`
-- bytes has room for its NUL, and holds no NUL before that.
read_string_bounded :
    (vm : Vm) (addr max : ℕ)
    → 0 < max
    → (length (read_string vm addr max).1 < max) × All NotNul (read_string vm addr max).1
read_string_bounded vm addr max h =
    let t = read_chunks-IsText vm addr max max [] (omega arith, tt) in
    rw (read_string_lem vm addr max h) (omega (arith, t.0), t.1)

-- Where the kernel can read the whole stretch and no address wraps, `rm_read_string` succeeds and
-- returns the bytes before the first NUL, cut at `max - 1` bytes.
pub read_string-eq-cut :
    (vm : Vm) (mem : ℕ → ℕ) (addr max : ℕ)
    → 0 < max
    → Maps mem vm addr (addr + (max - 1))
    → addr + max ≤ 2 ^ 64
    → read_string vm addr max ≡ (true, cut (window mem addr (max - 1)))
read_string-eq-cut vm mem addr max h maps fits =
    let a : addr + 0 ≡ addr = omega arith in
    let n : max - 1 - 0 ≡ max - 1 = omega arith in
    read_string_lem vm addr max h
    ∙ read_chunks-eq-cut vm addr max mem maps fits max [] (omega arith) (omega arith)
    ∙ rw (a, n)
