-- ===== src/Firmware/History.antt =====
-- The whole firmware from power-on: `setup`, and then the interrupts of the button, the callbacks of
-- the Wi-Fi stack and of the chat's keyboards, and the calls of `loop` in any order. The callback of a
-- keyboard, which the base class of the bot calls where it hands out a message, stands here between
-- two calls of `loop`.
pub mod Sound
pub mod InStep
pub mod Resting
pub mod Supply
pub mod StaysOff
use Prim.Native.String.{String}
use astro_photo_power_box.Prelude.{ℕ, Bool, true, List, [], ◌∷◌}
use astro_photo_power_box.Gfx.{Gfx}
use astro_photo_power_box.Float.{Float}
use astro_photo_power_box.Board.{Log}
use astro_photo_power_box.Telegram.Bot.{bot, Message}
use astro_photo_power_box.Telegram.Keyboards.{Button, press}
use astro_photo_power_box.Switcher.Types.{start as switcher_start}
use astro_photo_power_box.Switcher.KeyLock.{button_isr}
use astro_photo_power_box.Oled.{status_display}
use astro_photo_power_box.NonVolatile.{FileSystem, non_volatile}
use astro_photo_power_box.Battery.{battery}
use astro_photo_power_box.Connection.{start as connection_start, on_got_ip, on_disconnected}
use astro_photo_power_box.Ota.{start as ota_begin}
use astro_photo_power_box.EnergySaver.{energy_saver}
use astro_photo_power_box.Sensors.Types.{Psensors}
use astro_photo_power_box.Communication.{start as comm_start}
use astro_photo_power_box.Firmware.{Firmware, Input, DisplayInput, setup, loop}

-- What may happen, with the readings of the clock.
pub data Happening : Type 0 where
  isr : Bool → ℕ → Happening
  got_ip : ℕ → ℕ → String → Happening
  disconnected : ℕ → ℕ → Happening
  chat_button : Button → ℕ → Message → Happening
  call : Input → Happening

module _ {F P D : Type 0} ⦃f : Float F⦄ ⦃g : Gfx F⦄ (sensors : Psensors F P)
    (sensors_loop : ℕ → P → P) (fs : FileSystem F D) (digital_read : Log → ℕ → Bool)
    (networks : ℕ) where
  -- The components' objects as they are constructed, where the bot's queue gets its memory.
  unfoldable pub power_on : P → D → Firmware F P D
  unfolding non_volatile
  power_on p d =
      let (nvmem, files) = non_volatile fs d in
      record {
        switcher = switcher_start;
        connection = connection_start;
        ota = ota_begin;
        comm = comm_start;
        bot = bot true;
        nvmem = nvmem;
        files = files;
        energy = energy_saver;
        sensors = p;
        battery = battery;
        display = status_display;
      }

  unfoldable pub happen : Happening → Firmware F P D → Firmware F P D
  happen (isr level t) w = record w {
    switcher = record w.switcher { btn_info = button_isr level t w.switcher.btn_info };
  }
  happen (got_ip t t' ip) w =
      let (c, d) = on_got_ip t t' ip w.connection w.display in
      record w { connection = c; display = d }
  happen (disconnected t t') w =
      let (c, d) = on_disconnected t t' w.connection w.display in
      record w { connection = c; display = d }
  happen (chat_button b t msg) w =
      let (bot, d) = press digital_read b t msg w.switcher w.bot w.display in
      record w { bot = bot; display = d }
  happen (call i) w = loop sensors sensors_loop fs digital_read networks i w

  unfoldable pub history : List Happening → Firmware F P D → Firmware F P D
  history [] w = w
  history (h ∷ hs) w = history hs (happen h w)

  -- The box after `setup` and this history.
  unfoldable pub box_after : (P → P) → ℕ → DisplayInput → P → D → List Happening → Firmware F P D
  box_after sensors_setup time i p d hs =
      history hs
        (setup sensors sensors_loop fs digital_read networks sensors_setup time i (power_on p d))
