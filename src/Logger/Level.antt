-- ===== src/Logger/Level.antt =====
-- Logger_set_level.
use tools_on_linux.Prelude.{zero, suc}
use tools_on_linux.Prelude.{if◌then◌else◌, suc, ◌≡◌, refl, arith}
use tools_on_linux.Prelude.Int.{◌≤ℤ◌, ltb_ℤ, ℤ, pos, negsuc, leb_ℤ}
use tools_on_linux.Logger.State.{logger_set_level, logger_get_level, Logger}

-- The level is kept between 0 and 6, and set as it is in that range.
pub logger_set_level-range :
    (level : ℤ) (l : Logger)
    → let r = logger_get_level (logger_set_level level l) in
      (pos 0 ≤ℤ r) × (r ≤ℤ pos 6) × (pos 0 ≤ℤ level → level ≤ℤ pos 6 → r ≡ level)
unfolding logger_set_level logger_get_level
logger_set_level-range level l = clamp level
  where
    clamp :
        (level : ℤ)
        → let r =
            if leb_ℤ level (pos 0) then pos 0 else if ltb_ℤ (pos 6) level then pos 6 else level in
          (pos 0 ≤ℤ r) × (r ≤ℤ pos 6) × (pos 0 ≤ℤ level → level ≤ℤ pos 6 → r ≡ level)
    clamp (pos zero) = (omega arith, omega arith, λ _ _. refl)
    clamp (pos (suc n)) = (ground arith, ground arith, λ low high. ground (arith, high))
    clamp (negsuc n) = (ground arith, ground arith, λ low high. ground (arith, low))
