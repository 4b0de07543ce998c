-- ===== src/Firmware/Shutdown.antt =====
-- The way of a shutdown from `loop` of src/main.cpp over the network to the PC program
-- (gui/AstroBoxGUI/esp_comm). A message that is sent may be lost; here it arrives.
use astro_photo_power_box.Prelude.{
  ℕ, suc, ◌<◌, ◌≡◌, ◌≢◌, ◌∙◌, Bool, true, false, ◌&&◌, List, ◌∷◌, Option, some, sub32, ap, sym,
  if◌then◌else◌, arith,
}
use Prim.Native.String.{String}
use astro_photo_power_box.Gfx.{Gfx}
use astro_photo_power_box.Oled.{Display}
use astro_photo_power_box.Float.{Float}
use astro_photo_power_box.Board.{Log}
use astro_photo_power_box.Json.{Json}
use astro_photo_power_box.Json.Text.{IsText}
use astro_photo_power_box.Telegram.Bot.{Bot, Message, loop as bot_loop}
use astro_photo_power_box.Telegram.Handling.{handle_messages-state}
use astro_photo_power_box.Switcher.Types.{
  Switcher, consumers_on_wait4pc_shutdown, consumers_off_idle,
}
use astro_photo_power_box.Firmware.Starting.{started_comm-sent}
use astro_photo_power_box.NonVolatile.{FileSystem}
use astro_photo_power_box.Battery.{Battery}
use astro_photo_power_box.Sensors.Types.{PowerReader, Psensors}
use astro_photo_power_box.Connection.{is_connected}
use astro_photo_power_box.Ota.{is_updating}
use astro_photo_power_box.Communication.Convert.{tx_to_json}
use astro_photo_power_box.Communication.{Communication, compose, loop as comm_loop}
use astro_photo_power_box.Communication.Status.{compose_asks, transmit_lem}
use astro_photo_power_box.Gui.{Gui, is_astro_mini_pc, parse_rx_data}
use astro_photo_power_box.Gui.Messages.{parse_rx_data-shutdowns}
use astro_photo_power_box.Firmware.{Firmware, Input, online, offline, loop}
use astro_photo_power_box.Firmware.Updating.{loop_no_update}

module _ {F : Type 0} where
  comm_loop-sent :
      (t : ℕ) (packet : Option ℕ) (c : Communication F)
      → ((comm_loop t packet c).sent ≡ c.sent)
        × ((comm_loop t packet c).last_tx_time ≡ c.last_tx_time)
  unfolding comm_loop
  comm_loop-sent t packet c = ground arith

shutdowns_on :
    (a b : Bool) (n : ℕ) → a ≡ true → (if a && b then suc n else n) ≡ (if b then suc n else n)
shutdowns_on a b n e = ground arith

shutdowns_off : (a b : Bool) (n : ℕ) → a ≢ true → (if a && b then suc n else n) ≡ n
shutdowns_off a b n e = ground arith

module _ {F P : Type 0} ⦃f : Float F⦄ (sensors : PowerReader F P) (battery : Battery F) where
  bot_loop-state :
      (t : ℕ) (msgs : List Message) (b : Bot) (s : Switcher F) (d : Display F) (p : P)
      → (bot_loop sensors battery t msgs b s d p).2.consumers_state ≡ s.consumers_state
  unfolding bot_loop
  bot_loop-state t msgs b s d p = handle_messages-state sensors battery 10 t msgs b s d p

module _ {F P D : Type 0} ⦃f : Float F⦄ ⦃g : Gfx F⦄ (sensors : Psensors F P)
    (sensors_loop : ℕ → P → P) (fs : FileSystem F D) (digital_read : Log → ℕ → Bool)
    (networks : ℕ) where
  -- What the call sends to the network, more than a second after the last message.
  online-sent :
      (i : Input) (w : Firmware F P D)
      → 1000 < sub32 i.transmit_time w.comm.last_tx_time
      → let (_, _, switcher, _, p) =
          bot_loop sensors.reader w.battery i.message_time i.messages w.bot w.switcher w.display
            w.sensors in
        let (tx, _) = compose sensors digital_read i.send_time i.rssi switcher w.battery p in
        (online sensors sensors_loop fs digital_read networks i w).comm.sent
        ≡ tx_to_json tx ∷ w.comm.sent
  unfolding online
  online-sent i w h =
      let c = comm_loop i.comm_time i.packet w.comm in
      let (_, _, switcher, _, p) =
        bot_loop sensors.reader w.battery i.message_time i.messages w.bot w.switcher w.display
          w.sensors in
      let (sent, time) = comm_loop-sent i.comm_time i.packet w.comm in
      let (_, due) =
        transmit_lem sensors digital_read i.transmit_time i.send_time i.rssi switcher w.battery p
          c in
      let (new, _, _) = due (rw time h) in
      let (tx, _) = compose sensors digital_read i.send_time i.rssi switcher w.battery p in
      new ∙ ap (λ l. tx_to_json tx ∷ l) sent

  offline-sent :
      (i : Input) (w : Firmware F P D)
      → (offline sensors sensors_loop fs digital_read networks i w).comm.sent ≡ w.comm.sent
  unfolding offline
  offline-sent i w = started_comm-sent i w.connection w.comm

  -- A connected box whose consumers are not off and that is not updated sends a message with a
  -- call of `loop` more than a second after the last message. Where the text of the message reaches the PC from the
  -- box's address, a box that waits for the PC has the PC shut down once more, if its settings say that
  -- it is the PC of the box; in the other states the message does not shut down the PC.
  pub loop_shuts_pc_down :
      (to_json : Json F → String) {is_finite : F → Bool} {reads : F → F} {wire : Json F → Json F}
      → IsText is_finite reads wire
      → (value : Bool) (i : Input) (w : Firmware F P D) (pc : Gui F)
      → is_connected w.connection ≡ true
      → is_updating w.ota ≡ false
      → w.switcher.consumers_state ≢ consumers_off_idle
      → 1000 < sub32 i.transmit_time w.comm.last_tx_time
      → (doc : Json F) × ((loop sensors sensors_loop fs digital_read networks i w).comm.sent
          ≡ doc ∷ w.comm.sent)
        × (w.switcher.consumers_state ≡ consumers_on_wait4pc_shutdown
            → (parse_rx_data to_json value pc.esp_addr (some (wire doc)) pc).shutdowns
              ≡ (if (is_astro_mini_pc value pc.settings).0 then suc pc.shutdowns else pc.shutdowns))
        × (w.switcher.consumers_state ≢ consumers_on_wait4pc_shutdown
            → (parse_rx_data to_json value pc.esp_addr (some (wire doc)) pc).shutdowns
              ≡ pc.shutdowns)
  loop_shuts_pc_down to_json text value i w pc c u ne h =
      let (_, _, switcher, _, p) =
        bot_loop sensors.reader w.battery i.message_time i.messages w.bot w.switcher w.display
          w.sensors in
      let (tx, _) = compose sensors digital_read i.send_time i.rssi switcher w.battery p in
      let same =
        bot_loop-state sensors.reader w.battery i.message_time i.messages w.bot w.switcher w.display
          w.sensors in
      let (asked, asks) =
        compose_asks sensors digital_read i.send_time i.rssi switcher w.battery p in
      let step = (loop_no_update sensors sensors_loop fs digital_read networks i w ne u).0 c in
      let w1 = online sensors sensors_loop fs digital_read networks i w in
      (
        tx_to_json tx,
        ap (λ w. w.comm.sent) step ∙ offline-sent i w1 ∙ online-sent i w h,
        λ e.
            parse_rx_data-shutdowns to_json text value tx pc
            ∙ shutdowns_on tx.shutdown_pc (is_astro_mini_pc value pc.settings).0 pc.shutdowns
                (asks (same ∙ e)),
        λ ne.
            parse_rx_data-shutdowns to_json text value tx pc
            ∙ shutdowns_off tx.shutdown_pc (is_astro_mini_pc value pc.settings).0 pc.shutdowns
                (λ e. ne (sym same ∙ asked e)),
      )
