-- ===== src/Switcher/Types.antt =====
-- The types and the static variables of src/switcher/switcher_types.hpp and switcher.cpp.
use astro_photo_power_box.Prelude.{ℕ, ◌≡◌, arith, Bool, false, ℤ, pos, []}
use astro_photo_power_box.Float.{Float, whole}
use astro_photo_power_box.Board.{Log}

-- GPIO numbers
abbrev pub pin_mount : ℕ
pin_mount = 10

abbrev pub pin_consumers : ℕ
pin_consumers = 12

abbrev pub pin_charger : ℕ
pin_charger = 13

abbrev pub pin_camera : ℕ
pin_camera = 15

abbrev pub pin_heater1 : ℕ
pin_heater1 = 2

abbrev pub pin_heater2 : ℕ
pin_heater2 = 0

abbrev pub pin_btnled : ℕ
pin_btnled = 1

abbrev pub pin_button : ℕ
pin_button = 3

pub data KeyLockState : Type 0 where
  locked_wait4release locked_idle unlocking_hold unlocking_wait4release : KeyLockState
  unlocking_release_delay unlocking_wait4ack unlocked_idle : KeyLockState

pub data ConsumersState : Type 0 where
  consumers_off_idle consumers_off_prepare_activation consumers_on_subs_off : ConsumersState
  consumers_on_subs_activation consumers_on_idle consumers_on_prepare_power_down : ConsumersState
  consumers_on_wait4pc_shutdown : ConsumersState

-- The enumeration's values.
unfoldable pub state_number : ConsumersState → ℕ
state_number consumers_off_idle = 0
state_number consumers_off_prepare_activation = 1
state_number consumers_on_subs_off = 2
state_number consumers_on_subs_activation = 3
state_number consumers_on_idle = 4
state_number consumers_on_prepare_power_down = 5
state_number consumers_on_wait4pc_shutdown = 6

pub state_number-injective : (c d : ConsumersState) → state_number c ≡ state_number d → c ≡ d
unfolding state_number
state_number-injective c d h = ground arith

pub record ButtonInfo : Type 0 where
  pub last_button_press_time : ℕ  -- uint32_t
  pub last_button_release_time : ℕ  -- uint32_t
  pub num_presses_since_start : ℕ  -- uint32_t
  pub pressed : Bool

-- The namespace's static variables and those of its functions; `log` is what was asked of the
-- board. The stop and the restart state of charge are `_chargeLimitSoC[0]` and `[1]`.
pub record Switcher (F : Type 0) : Type 0 where
  pub btn_info : ButtonInfo
  pub stop_soc : F
  pub restart_soc : F
  pub heater1_pwm : ℤ
  pub heater2_pwm : ℤ
  pub led_pwm : ℕ
  pub key_lock_state : KeyLockState
  pub consumers_state : ConsumersState
  pub consumer_power_request : Bool
  pub prev_btn_press_count : ℕ  -- uint32_t
  pub last_state_change : ℕ  -- uint32_t
  pub was_charging : Bool
  pub log : Log

-- `_unlockDuration`, which nothing changes
abbrev pub unlock_duration : ℕ
unlock_duration = 10000

-- The initial values.
unfoldable pub start : {F : Type 0} ⦃f : Float F⦄ → Switcher F
start = record {
  btn_info = record {
    last_button_press_time = 0;
    last_button_release_time = 0;
    num_presses_since_start = 0;
    pressed = false;
  };
  stop_soc = whole 100;
  restart_soc = whole 95;
  heater1_pwm = pos 0;
  heater2_pwm = pos 0;
  led_pwm = 0;
  key_lock_state = KeyLockState.locked_idle;
  consumers_state = ConsumersState.consumers_off_idle;
  consumer_power_request = false;
  prev_btn_press_count = 0;
  last_state_change = 0;
  was_charging = false;
  log = [];
}
