-- ===== src/Config/Tests.antt =====
-- The address from the configuration at concrete values.
use perfect_build_radar_touc.Base.{◌≡◌, refl}
use perfect_build_radar_touc.Config.{config_runtime_address}

-- An RVA takes the base; a preferred address takes the slide; a sum past the end gives 0.
config_runs :
    (config_runtime_address 0x0aad_3898 0x1_0400_0000 0x0400_0000 ≡ 0x1_0ead_3898)
    × (config_runtime_address 0x1_0aad_3898 0x1_0400_0000 0x0400_0000 ≡ 0x1_0ead_3898)
    × (config_runtime_address 0xffff_ffff_ffff_ffff 0 1 ≡ 0)
unfolding config_runtime_address
config_runs = (refl, refl, refl)
