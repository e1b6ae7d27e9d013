-- ===== src/Config.antt =====
-- source/daemon/config_address.h: an address from the configuration file at run time.
mod Tests
use perfect_build_radar_touc.Base.{ℕ, ◌-◌, ltb, leb, ◌==◌, if◌then◌else◌, u64_mod, add64}

-- `UINT64_MAX - adjustment` does not go below 0, since `adjustment` is a `uint64_t`.
unfoldable pub config_runtime_address : ℕ → ℕ → ℕ → ℕ
config_runtime_address value base slide =
    let adjustment = if leb 0x1_0000_0000 value then slide else base in
    if value == 0
    then 0
    else if ltb (u64_mod - 1 - adjustment) value
    then 0
    else add64 value adjustment

-- What has to be added: the slide for a preferred virtual address, the image base for an RVA.
abbrev pub adjustment : ℕ → ℕ → ℕ → ℕ
adjustment value base slide = if leb 0x1_0000_0000 value then slide else base
