-- ===== src/Switcher/Pins/Heater.antt =====
-- The heaters: the range of the PWM value.
use astro_photo_power_box.Prelude.{pos, ◌≤ℤ◌, arith}
use astro_photo_power_box.Float.{Float, ◌≼◌, nought, whole, IsOrdered, IsScaling}
use astro_photo_power_box.Switcher.Pins.{heater_pwm}

module _ {F : Type 0} ⦃f : Float F⦄ where
  module _ (ordered : IsOrdered F) (scaling : IsScaling F) where
    open ordered use {lit_refl, lit_mono, le_trans, fminf-le, le-fmaxf, fmaxf-le}
    open scaling use {mul_mono, mul_le, le_mul, to_int_mono, to_int_whole}

    -- The PWM value stays in the 10 bit range, whatever the power: negative, above 15 W or NaN.
    pub heater_pwm_bounds : (w : F) → (pos 0 ≤ℤ heater_pwm w) × (heater_pwm w ≤ℤ pos 1023)
    unfolding heater_pwm
    heater_pwm_bounds w =
        let limited = f.fmaxf nought (f.fminf (whole 1) (f.div w (whole 15))) in
        let low = le-fmaxf nought (f.fminf (whole 1) (f.div w (whole 15))) (lit_refl (pos 0) 0) in
        let high : limited ≼ whole 1 =
          fmaxf-le _ _ _ (lit_mono 0 1 (omega arith)) (fminf-le _ _ (lit_refl (pos 1) 0)) in
        let value = f.mul limited (whole 1023) in
        let above : whole 0 ≼ value =
          le_trans _ _ _ (le_mul 0 1023 0 (omega arith) (omega arith) (omega arith))
            (mul_mono _ _ 1023 (omega arith) (omega arith) low) in
        let below : value ≼ whole 1023 =
          le_trans _ _ _ (mul_mono _ _ 1023 (omega arith) (omega arith) high)
            (mul_le 1 1023 1023 (omega arith) (omega arith) (omega arith)) in
        let limit = lit_mono 1023 200000000000 (omega arith) in
        (
          rw (to_int_whole 0 (omega arith)) at
              (to_int_mono (whole 0) value (lit_refl (pos 0) 0) above (le_trans _ _ _ below limit)),
          rw (to_int_whole 1023 (omega arith)) at
              (to_int_mono value (whole 1023) above below limit),
        )
