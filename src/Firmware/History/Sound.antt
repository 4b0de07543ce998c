-- ===== src/Firmware/History/Sound.antt =====
-- The invariants of the components, together over the histories of the whole box.
use astro_photo_power_box.Prelude.{
  ℕ, ◌<◌, Bool, true, false, List, [], ◌∷◌, arith, pos, if◌then◌else◌,
}
use astro_photo_power_box.Gfx.{Gfx}
use astro_photo_power_box.Float.{Float, IsOrdered, IsPercent}
use astro_photo_power_box.Board.{Log}
use astro_photo_power_box.RingBuffer.Inv.{IsValid}
use astro_photo_power_box.Telegram.Commands.{bot-IsValid}
use astro_photo_power_box.Telegram.Keyboards.{press-IsValid}
use astro_photo_power_box.Telegram.Handling.{handle_messages-IsValid}
use astro_photo_power_box.Firmware.Starting.{started_bot-command}
use astro_photo_power_box.NonVolatile.{FileSystem}
use astro_photo_power_box.Battery.{battery}
use astro_photo_power_box.Battery.Charge.{loop-IsPercent}
use astro_photo_power_box.Connection.{is_connected}
use astro_photo_power_box.Connection.Events.{
  IsConsistent, event, event-IsConsistent, start-IsConsistent, got_ip_event, disconnected_event,
  loop_call,
}
use astro_photo_power_box.Ota.{handle, is_updating}
use astro_photo_power_box.Sensors.Types.{Psensors}
use astro_photo_power_box.Firmware.{Firmware, Input, DisplayInput, setup, online, offline, loop}
use astro_photo_power_box.Firmware.History.{
  Happening, isr, got_ip, disconnected, chat_button, call, happen, history, power_on, box_after,
}

pub record IsSound {F P D : Type 0} ⦃f : Float F⦄ (networks : ℕ) (w : Firmware F P D) : Type 0 where
  pub queue : IsValid w.bot.pending_commands
  pub wifi : IsConsistent networks w.connection
  pub soc : IsPercent w.battery.soc

module _ {F P D : Type 0} ⦃f : Float F⦄ ⦃g : Gfx F⦄ (ordered : IsOrdered F) (sensors : Psensors F P)
    (sensors_loop : ℕ → P → P) (fs : FileSystem F D) (digital_read : Log → ℕ → Bool) (networks : ℕ)
    (some_networks : 0 < networks) where
  if-IsSound :
      (c : Bool) (x y : Firmware F P D)
      → IsSound networks x
      → IsSound networks y
      → IsSound networks (if c then x else y)
  if-IsSound true x y h k = h
  if-IsSound false x y h k = k

  online-IsSound :
      (i : Input) (w : Firmware F P D)
      → IsSound networks w
      → IsSound networks (online sensors sensors_loop fs digital_read networks i w)
  unfolding online
  online-IsSound i w v = record {
    queue =
        handle_messages-IsValid sensors.reader w.battery 10 i.message_time i.messages w.bot
          w.switcher w.display w.sensors v.queue;
    wifi = v.wifi;
    soc = v.soc;
  }

  offline-IsSound :
      (i : Input) (w : Firmware F P D)
      → IsSound networks w
      → IsSound networks (offline sensors sensors_loop fs digital_read networks i w)
  unfolding offline event
  offline-IsSound i w v = record {
    queue = (started_bot-command i w.connection w.bot v.queue).2;
    wifi =
        event-IsConsistent networks (loop_call i.mdns_ok i.telegram_ok i.connection_time i.try_time)
          w.connection w.display some_networks v.wifi;
    soc = loop-IsPercent sensors.reader ordered i.battery_times _ _ w.battery v.soc;
  }

  loop-IsSound :
      (i : Input) (w : Firmware F P D)
      → IsSound networks w
      → IsSound networks (loop sensors sensors_loop fs digital_read networks i w)
  unfolding loop
  loop-IsSound i w v =
      let (ota, switcher, display) = handle i.ota_events w.ota w.switcher w.display in
      let handled = record w { ota = ota; switcher = switcher; display = display } in
      let v' : IsSound networks handled = record { queue = v.queue; wifi = v.wifi; soc = v.soc } in
      if-IsSound (is_connected w.connection) _ _
        (if-IsSound (is_updating ota) handled _ v'
          (offline-IsSound i _ (online-IsSound i handled v')))
        (offline-IsSound i w v)

  happen-IsSound :
      (h : Happening) (w : Firmware F P D)
      → IsSound networks w
      → IsSound networks (happen sensors sensors_loop fs digital_read networks h w)
  unfolding happen event
  happen-IsSound (isr level t) w v = record { queue = v.queue; wifi = v.wifi; soc = v.soc }
  happen-IsSound (got_ip t t' ip) w v = record {
    queue = v.queue;
    wifi =
        event-IsConsistent networks (got_ip_event t t' ip) w.connection w.display some_networks
          v.wifi;
    soc = v.soc;
  }
  happen-IsSound (disconnected t t') w v = record {
    queue = v.queue;
    wifi =
        event-IsConsistent networks (disconnected_event t t') w.connection w.display some_networks
          v.wifi;
    soc = v.soc;
  }
  happen-IsSound (chat_button b t msg) w v = record {
    queue = press-IsValid digital_read b t msg w.switcher w.bot w.display v.queue;
    wifi = v.wifi;
    soc = v.soc;
  }
  happen-IsSound (call i) w v = loop-IsSound i w v

  history-IsSound :
      (hs : List Happening) (w : Firmware F P D)
      → IsSound networks w
      → IsSound networks (history sensors sensors_loop fs digital_read networks hs w)
  unfolding history
  history-IsSound [] w v = v
  history-IsSound (h ∷ hs) w v = history-IsSound hs _ (happen-IsSound h w v)

  setup-IsSound :
      (sensors_setup : P → P) (time : ℕ) (i : DisplayInput) (p : P) (d : D)
      → IsSound networks (
          setup sensors sensors_loop fs digital_read networks sensors_setup time i
            (power_on sensors sensors_loop fs digital_read networks p d))
  unfolding setup power_on battery
  setup-IsSound sensors_setup time i p d = record {
    queue = bot-IsValid;
    wifi = start-IsConsistent networks;
    soc = (ordered.lit_refl (pos 0) 0, ordered.lit_mono 0 100 (omega arith));
  }

  -- From power-on, over any interrupts, events of the Wi-Fi stack, buttons in the chat and calls of
  -- `loop`, whatever arrives, and whatever the sensors and the file system say: the bot's queue of commands is a
  -- valid ring buffer, the connection is consistent, and the state of charge is a percentage.
  pub box-IsSound :
      (sensors_setup : P → P) (time : ℕ) (i : DisplayInput) (p : P) (d : D) (hs : List Happening)
      → IsSound networks
          (box_after sensors sensors_loop fs digital_read networks sensors_setup time i p d hs)
  unfolding box_after
  box-IsSound sensors_setup time i p d hs =
      history-IsSound hs _ (setup-IsSound sensors_setup time i p d)
