-- ===== src/Switcher/Pins/Levels.antt =====
-- The relay pins: what a getter reads back, and what the heaters leave alone.
use astro_photo_power_box.Prelude.{ℕ, ◌≡◌, ◌∙◌, Bool, arith}
use astro_photo_power_box.Float.{Float, nought}
use astro_photo_power_box.Board.{Log, level, IsReadingBack}
use astro_photo_power_box.Switcher.Types.{Switcher}
use astro_photo_power_box.Switcher.Pins.{
  set_consumers, set_mount, set_camera, set_charger, set_heater, heater_pwm, get_consumers,
  get_mount, get_camera, get_charger,
}

-- The relays as a client sees them.
pub record Relays : Type 0 where
  pub consumers : Bool
  pub mount : Bool
  pub camera : Bool
  pub charger : Bool

module _ {F : Type 0} (digital_read : Log → ℕ → Bool) where
  unfoldable pub relays : Switcher F → Relays
  unfolding get_consumers get_mount get_camera get_charger
  relays s = record {
    consumers = get_consumers digital_read s;
    mount = get_mount digital_read s;
    camera = get_camera digital_read s;
    charger = get_charger digital_read s;
  }

  -- Each setter sets the relay that its getter reads, whatever the polarity of the pin, and no
  -- other, on a board whose output pins read back what was last written to them.
  pub relays_set :
      (b : Bool) (s : Switcher F)
      → IsReadingBack digital_read
      → let r = relays s in
        (relays (set_consumers b s) ≡ record r { consumers = b })
        × (relays (set_mount b s) ≡ record r { mount = b })
        × (relays (set_camera b s) ≡ record r { camera = b })
        × (relays (set_charger b s) ≡ record r { charger = b })
  unfolding relays set_consumers set_mount set_camera set_charger
  relays_set b s r = grind arith

module _ {F : Type 0} ⦃f : Float F⦄ where
  -- A heater changes no relay pin and no state of the power sequence.
  pub record IsHeaterOnly (s s' : Switcher F) : Type 0 where
    pub levels : (b : Bool) (pin : ℕ) → level b pin s'.log ≡ level b pin s.log
    pub same_state : s'.consumers_state ≡ s.consumers_state
    pub same_change : s'.last_state_change ≡ s.last_state_change
    pub same_request : s'.consumer_power_request ≡ s.consumer_power_request

  pub set_heater-IsHeaterOnly : (n : ℕ) (w : F) (s : Switcher F) → IsHeaterOnly s (set_heater n w s)
  unfolding set_heater level
  set_heater-IsHeaterOnly n w s = record {
    levels = λ b pin. ground arith;
    same_state = ground arith;
    same_change = ground arith;
    same_request = ground arith;
  }

  -- Both heaters off, as the power sequence asks.
  pub heaters_off-IsHeaterOnly :
      (s : Switcher F) → IsHeaterOnly s (set_heater 1 nought (set_heater 0 nought s))
  heaters_off-IsHeaterOnly s =
      let a = set_heater-IsHeaterOnly 0 nought s in
      let b = set_heater-IsHeaterOnly 1 nought (set_heater 0 nought s) in
      record {
        levels = λ c pin. b.levels c pin ∙ a.levels c pin;
        same_state = b.same_state ∙ a.same_state;
        same_change = b.same_change ∙ a.same_change;
        same_request = b.same_request ∙ a.same_request;
      }

  -- The PWM value of a heater is that of the power last set.
  pub heaters_off-heater_pwm :
      (s : Switcher F)
      → let s' = set_heater 1 nought (set_heater 0 nought s) in
        (s'.heater1_pwm ≡ heater_pwm {F = F} nought) × (s'.heater2_pwm ≡ heater_pwm {F = F} nought)
  unfolding set_heater
  heaters_off-heater_pwm s = (ground arith, ground arith)
