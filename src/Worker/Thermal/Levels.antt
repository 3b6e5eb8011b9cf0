-- ===== src/Worker/Thermal/Levels.antt =====
-- The hysteresis of the thermal level and of the CPU's clock.
use k230_lr2021_radio.Prelude.{◌≡◌, arith, ℤ, pos}
use k230_lr2021_radio.Worker.Thermal.{level_of, dvfs_stage}

-- At a steady temperature the level moves once at most.
pub level_of_twice : (temp level : ℤ) → level_of temp (level_of temp level) ≡ level_of temp level
unfolding level_of
level_of_twice temp level = ground arith

-- Nor does the stage of the CPU's clock move more than once at a steady temperature.
pub dvfs_stage_twice :
    (temp stage : ℤ) → dvfs_stage temp (pos (dvfs_stage temp stage)) ≡ dvfs_stage temp stage
unfolding dvfs_stage
dvfs_stage_twice temp stage = ground arith
