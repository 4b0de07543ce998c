-- ===== src/Firmware.antt =====
-- The firmware as a whole: `setup` and `loop` of src/main.cpp, which compose the components. The
-- callbacks of the Wi-Fi stack and the button's interrupt come between the calls of `loop`.
pub mod Updating
pub mod Starting
pub mod Requests
pub mod Sequence
pub mod PowerUp
pub mod PowerDown
pub mod Shutdown
pub mod History
mod Tests
use astro_photo_power_box.Prelude.{not, ◌&&◌, ℕ, Bool, true, false, List, Option, ℤ, if◌then◌else◌}
use astro_photo_power_box.Float.{Float}
use astro_photo_power_box.Board.{Log}
use astro_photo_power_box.Sensors.Types.{Psensors}
use astro_photo_power_box.Telegram.Bot.{
  Bot, Message, get_and_clear_command, loop as bot_loop, begin as bot_begin,
}
use astro_photo_power_box.Switcher.Types.{Switcher}
use astro_photo_power_box.Switcher.Pins.{setup as switcher_setup}
use astro_photo_power_box.Switcher.Loop.{Times, loop as switcher_loop}
use Prim.Native.String.{String}
use astro_photo_power_box.Gfx.{Gfx}
use astro_photo_power_box.Switcher.Types.{KeyLockState}
use astro_photo_power_box.Oled.Content.{View, home}
use astro_photo_power_box.Oled.StatusBar.Symbols.{Surroundings}
use astro_photo_power_box.Oled.{Display, set_screen, loop as display_loop, setup as display_setup}
use astro_photo_power_box.NonVolatile.{NonVolatile, FileSystem, loop as nvmem_loop}
use astro_photo_power_box.Battery as BatteryModule
use astro_photo_power_box.Battery.{Battery, get_energy_remaining_wh, loop as battery_loop}
use astro_photo_power_box.Connection.{
  Connection, is_connected, get_ssid_ndx, loop as connection_loop,
}
use astro_photo_power_box.Ota.{Ota, OtaEvent, handle, is_updating}
use astro_photo_power_box.EnergySaver.{
  EnergySaver, get_keep_awake, set_sleep_limit, loop as energy_loop, setup as energy_setup,
}
use astro_photo_power_box.Communication.{
  Communication, transmit, loop as comm_loop, setup as comm_setup,
}

pub record Firmware (F P D : Type 0) : Type 0 where
  pub switcher : Switcher F
  pub connection : Connection
  pub ota : Ota
  pub comm : Communication F
  pub bot : Bot
  pub nvmem : NonVolatile F
  pub files : D
  pub energy : EnergySaver
  pub sensors : P
  pub battery : Battery F
  pub display : Display F

-- What the display reads from outside while it is updated: the clock, the strength of the signal and
-- the board's address.
pub record DisplayInput : Type 0 where
  pub blink_time : ℕ
  pub end_time : ℕ
  pub icon_time : ℕ
  pub value_time : ℕ
  pub rssi : ℤ
  pub mac_address : String

unfoldable pub is_unlocked : KeyLockState → Bool
is_unlocked KeyLockState.unlocked_idle = true
is_unlocked other = false

module _ {F : Type 0} ⦃f : Float F⦄ where
  -- What the display asks of the other components.
  unfoldable pub surroundings : DisplayInput → Connection → EnergySaver → Switcher F → Surroundings
  unfolding is_connected get_ssid_ndx get_keep_awake is_unlocked
  surroundings i c e s = record {
    keep_awake = get_keep_awake e;
    rssi = i.rssi;
    connected = is_connected c;
    ssid_ndx = get_ssid_ndx c;
    unlocked = is_unlocked s.key_lock_state;
    icon_time = i.icon_time;
    value_time = i.value_time;
  }

  unfoldable pub view : DisplayInput → Battery F → View F
  unfolding get_energy_remaining_wh
  view i b = record {
    soc = b.soc;
    energy_wh = get_energy_remaining_wh b;
    mac_address = i.mac_address;
    blink_time = i.blink_time;
    end_time = i.end_time;
  }

-- What one call of `loop` gets from outside: the readings of the clock, which each component makes
-- for itself, the events of the update library, the packet and the messages that arrived, and what
-- the Wi-Fi stack answers.
pub record Input : Type 0 where
  pub ota_events : List OtaEvent
  pub comm_time : ℕ
  pub message_time : ℕ
  pub packet : Option ℕ
  pub messages : List Message
  pub transmit_time : ℕ
  pub send_time : ℕ
  pub rssi : ℤ
  pub mdns_ok : Bool
  pub telegram_ok : Bool
  pub device_name : String
  pub service_ok : Bool
  pub connection_time : ℕ
  pub try_time : ℕ
  pub switcher_times : Times
  pub nvmem_time : ℕ
  pub nvmem_show_time : ℕ
  pub wifi_connected : Bool
  pub energy_time : ℕ
  pub sleep_start : ℕ
  pub sleep_end : ℕ
  pub sensors_time : ℕ
  pub battery_times : BatteryModule.Times
  pub display_time : ℕ
  pub display_input : DisplayInput

-- The calls of other components that the connection's loop makes where it starts mDNS and the bot.
unfoldable pub started_comm : {F : Type 0} → Input → Connection → Communication F → Communication F
unfolding is_connected comm_setup
started_comm i c comm =
    if is_connected c && not c.mdns_started && i.mdns_ok
    then comm_setup i.device_name i.display_input.mac_address i.service_ok comm
    else comm

unfoldable pub started_bot : Input → Connection → Bot → Bot
unfolding is_connected bot_begin
started_bot i c b =
    if is_connected c && not c.telegram_started then (bot_begin i.telegram_ok b).1 else b

module _ {F P D : Type 0} ⦃f : Float F⦄ ⦃g : Gfx F⦄ (sensors : Psensors F P)
    (sensors_loop : ℕ → P → P) (fs : FileSystem F D) (digital_read : Log → ℕ → Bool)
    (networks : ℕ) where
  -- What `loop` does with the network, where the update does not take over.
  unfoldable pub online : Input → Firmware F P D → Firmware F P D
  unfolding comm_loop bot_loop transmit
  online i w =
      let comm = comm_loop i.comm_time i.packet w.comm in
      let (_, bot, switcher, display, p) =
        bot_loop sensors.reader w.battery i.message_time i.messages w.bot w.switcher w.display
          w.sensors in
      let (comm, p) =
        transmit sensors digital_read i.transmit_time i.send_time i.rssi switcher w.battery p
          comm in
      record w { comm = comm; bot = bot; switcher = switcher; display = display; sensors = p }

  -- The components' loops that run on every call.
  unfoldable pub offline : Input → Firmware F P D → Firmware F P D
  unfolding connection_loop started_comm started_bot get_and_clear_command switcher_loop nvmem_loop
      energy_loop battery_loop display_loop surroundings view
  offline i w =
      let connection =
        connection_loop networks i.mdns_ok i.telegram_ok i.connection_time i.try_time
          w.connection in
      let comm = started_comm i w.connection w.comm in
      let (command, bot) = get_and_clear_command (started_bot i w.connection w.bot) in
      let (p, switcher) =
        switcher_loop sensors.reader i.switcher_times command w.battery.soc w.sensors w.switcher in
      let (nvmem, files, display) =
        nvmem_loop fs i.nvmem_time i.nvmem_show_time w.nvmem w.files w.display in
      let (_, energy) =
        energy_loop i.wifi_connected i.energy_time i.sleep_start i.sleep_end 0 w.energy in
      let p = sensors_loop i.sensors_time p in
      let (p, nvmem, battery) = battery_loop sensors.reader i.battery_times p nvmem w.battery in
      let (p, display) =
        display_loop sensors (surroundings i.display_input connection energy switcher)
          (view i.display_input battery) i.display_time p display in
      record w {
        connection = connection;
        comm = comm;
        bot = bot;
        switcher = switcher;
        nvmem = nvmem;
        files = files;
        energy = energy;
        sensors = p;
        battery = battery;
        display = display;
      }

  -- `setup`, on the components' initial values. `sensors_setup` is `powersensors.setup`; what the
  -- connection and the update library register does not change their state.
  unfoldable pub setup : (P → P) → ℕ → DisplayInput → Firmware F P D → Firmware F P D
  unfolding switcher_setup display_setup energy_setup set_sleep_limit set_screen surroundings view
  setup sensors_setup time i w =
      let switcher = switcher_setup w.switcher in
      let (p, display) =
        display_setup sensors (surroundings i w.connection w.energy switcher) (view i w.battery)
          time time w.sensors w.display in
      let energy = set_sleep_limit 1000 (energy_setup w.energy) in
      record w {
        switcher = switcher;
        energy = energy;
        sensors = sensors_setup p;
        display = set_screen home display;
      }

  unfoldable pub loop : Input → Firmware F P D → Firmware F P D
  unfolding is_connected handle is_updating online offline
  loop i w =
      let (ota, switcher, display) = handle i.ota_events w.ota w.switcher w.display in
      let handled = record w { ota = ota; switcher = switcher; display = display } in
      if is_connected w.connection
      then (if is_updating ota then handled else offline i (online i handled))
      else offline i w
