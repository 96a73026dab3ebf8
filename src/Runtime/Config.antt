-- ===== src/Runtime/Config.antt =====
-- Default configuration values (src/core/runtime.c, include/xgc/gc_config.h).
use xgc.Runtime.{GcConfig}
use xgc.Prelude.{ℕ, ◌*◌, ◌≡◌, ◌≢◌, arith, ◌==◌, if◌then◌else◌}

abbrev pub threshold_soft_default : ℕ
threshold_soft_default = 64 * 1024 * 1024

abbrev pub threshold_hard_default : ℕ
threshold_hard_default = 128 * 1024 * 1024

abbrev pub or_default : ℕ → ℕ → ℕ
or_default value default = if value == 0 then default else value

unfoldable pub apply_default_config : GcConfig → GcConfig
apply_default_config cfg = record cfg {
  gc_threshold_soft = or_default cfg.gc_threshold_soft threshold_soft_default;
  gc_threshold_hard = or_default cfg.gc_threshold_hard threshold_hard_default;
  gc_young_space_size = or_default cfg.gc_young_space_size (4 * 1024 * 1024);
  gc_region_size = or_default cfg.gc_region_size (256 * 1024);
  gc_large_object_threshold = or_default cfg.gc_large_object_threshold (32 * 1024);
}

abbrev pub zeroed : GcConfig
zeroed = record {
  gc_threshold_soft = 0;
  gc_threshold_hard = 0;
  gc_young_space_size = 0;
  gc_region_size = 0;
  gc_large_object_threshold = 0;
  gc_flags = 0;
  gc_debug_enable = 0;
}

unfoldable pub config_init_default : GcConfig
unfolding apply_default_config
config_init_default = apply_default_config zeroed

-- No size is zero.
pub record IsUsable (cfg : GcConfig) : Type 0 where
  pub soft : cfg.gc_threshold_soft ≢ 0
  pub hard : cfg.gc_threshold_hard ≢ 0
  pub young : cfg.gc_young_space_size ≢ 0
  pub region : cfg.gc_region_size ≢ 0
  pub large : cfg.gc_large_object_threshold ≢ 0

-- A usable configuration stays as it is.
pub apply_default_config_keeps : (cfg : GcConfig) → IsUsable cfg → apply_default_config cfg ≡ cfg
unfolding apply_default_config
apply_default_config_keeps cfg h = ground (arith, h.soft, h.hard, h.young, h.region, h.large)

-- Defaults make every size usable, whatever the configuration, and applying them again changes
-- nothing.
pub apply_default_config_lem :
    (cfg : GcConfig)
    → IsUsable (apply_default_config cfg)
      × (apply_default_config (apply_default_config cfg) ≡ apply_default_config cfg)
unfolding apply_default_config
apply_default_config_lem cfg = (ground arith, ground arith)
