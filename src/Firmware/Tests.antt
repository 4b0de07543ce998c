-- ===== src/Firmware/Tests.antt =====
-- A step of the whole firmware, with the consumers on.
use astro_photo_power_box.Prelude.{
  pos, some, inl, ◌≢◌, ℕ, ◌+◌, ◌≡◌, Bool, true, false, Option, none, List, [], ◌∷◌, negsuc, refl,
  arith,
}
use astro_photo_power_box.Float.Milli.{Milli, milli_float}
use astro_photo_power_box.Gfx.Memory.{memory_gfx}
use astro_photo_power_box.Board.{Log, level}
use astro_photo_power_box.Json.{Json}
use astro_photo_power_box.Json.Text.{exact-IsText}
use astro_photo_power_box.Telegram.Bot.{bot, enqueue}
use astro_photo_power_box.Telegram.Types.{no_command, power_consumers_on, power_consumers_off}
use astro_photo_power_box.Telegram.Commands.{pending, enqueued, bot-IsValid}
use astro_photo_power_box.RingBuffer.Queue as Queue
use astro_photo_power_box.RingBuffer.{rb_base, write, remaining_elm}
use astro_photo_power_box.RingBuffer.Contents.{elements}
use astro_photo_power_box.Firmware.PowerUp.{command_powers_up}
use astro_photo_power_box.Gui.{esp_comm, is_astro_mini_pc, parse_rx_data}
use astro_photo_power_box.Firmware.PowerDown.{command_powers_down}
use astro_photo_power_box.Firmware.Shutdown.{loop_shuts_pc_down}
use astro_photo_power_box.Firmware.Requests.{offline-request}
use astro_photo_power_box.Switcher.Types.{
  ConsumersState, KeyLockState, pin_consumers, start as switcher_start,
}
use astro_photo_power_box.Oled.{status_display}
use astro_photo_power_box.NonVolatile.{FileSystem, no_stats}
use astro_photo_power_box.Battery.{battery}
use astro_photo_power_box.Connection.{is_connected, start as connection_start}
use astro_photo_power_box.Ota.{ota_start, is_updating, start as ota_begin}
use astro_photo_power_box.EnergySaver.{energy_saver}
use astro_photo_power_box.Sensors.Types.{Psensors}
use astro_photo_power_box.Communication.{start as comm_start}
use astro_photo_power_box.Float.Milli.{Milli-IsOrdered}
use astro_photo_power_box.Telegram.Bot.{Message, Sender, message_text, message_query}
use astro_photo_power_box.Telegram.Keyboards.{relay_consumers, ping_request}
use astro_photo_power_box.Switcher.Consumers.Outputs.{AreRelaysInState}
use astro_photo_power_box.Firmware.History.{
  Happening, isr, got_ip, disconnected, chat_button, call, box_after,
}
use astro_photo_power_box.Firmware.History.Sound.{IsSound, box-IsSound}
use astro_photo_power_box.Switcher.Loop.Rest.{AreReleased}
use astro_photo_power_box.Firmware.History.StaysOff.{IsUntouched, box_stays_off}
use astro_photo_power_box.Firmware.History.InStep.{HasNoRelayQueries, box-AreRelaysInState}
use astro_photo_power_box.Firmware.{Firmware, Input, DisplayInput, online, offline, loop}
use astro_photo_power_box.Firmware.Updating.{loop_no_update}

-- Who writes to the bot.
abbrev observer : Sender
observer = record { id = pos 7; first_name = "Tycho"; last_name = "Brahe"; username = "tb" }

abbrev sensors : Psensors Milli ℕ
sensors = record {
  reader = record { get_voltage = λ c n. (12800, n); get_current = λ c n. (150, n) };
  get_power = λ c n. 1920;
  get_adc_shunt = λ c n. 100;
}

abbrev files : FileSystem Milli (Option (Json Milli))
files = record {
  begin = λ d. d;
  parse = λ d. d;
  truncate = λ d. none;
  seek_start = λ d. (true, d);
  write = λ j d. (80, Option.some j);
  close = λ d. d;
}

abbrev digital_read : Log → ℕ → Bool
digital_read = λ log pin. level false pin log

abbrev box : Firmware Milli ℕ (Option (Json Milli))
box = record {
  switcher = record switcher_start { consumers_state = ConsumersState.consumers_on_idle };
  connection = record connection_start { got_ip = true };
  ota = ota_begin;
  comm = comm_start;
  bot = bot true;
  nvmem = record { dirty = false; last_mod = 0; stats = no_stats; saved_stats = no_stats };
  files = none;
  energy = energy_saver;
  sensors = 7;
  battery = battery;
  display = status_display;
}

abbrev screen_input : DisplayInput
screen_input = record {
  blink_time = 5026;
  end_time = 5027;
  icon_time = 5028;
  value_time = 5029;
  rssi = negsuc 59;
  mac_address = "00:11:22:33:44:55";
}

abbrev input : Input
input = record {
  ota_events = ota_start ∷ [];
  comm_time = 5000;
  packet = none;
  message_time = 5000;
  messages = [];
  transmit_time = 5001;
  send_time = 5002;
  rssi = negsuc 59;
  mdns_ok = true;
  telegram_ok = true;
  device_name = "AstroNode_FCCB1C";
  service_ok = true;
  connection_time = 5003;
  try_time = 5003;
  switcher_times = record { button_time = 5004; power_time = 5005; change_time = 5006 };
  nvmem_time = 5007;
  nvmem_show_time = 5008;
  wifi_connected = true;
  energy_time = 5009;
  sleep_start = 5010;
  sleep_end = 5020;
  sensors_time = 5021;
  battery_times = record { due_time = 5022; sys_time = 5023; mod_time = 5024 };
  display_time = 5025;
  display_input = screen_input;
}

loop_no_update_example :
    let step = offline sensors (λ t p. p) files digital_read 3 input in
    (is_connected box.connection ≡ true
      → loop sensors (λ t p. p) files digital_read 3 input box
        ≡ step (online sensors (λ t p. p) files digital_read 3 input box))
    × (is_connected box.connection ≡ false
        → loop sensors (λ t p. p) files digital_read 3 input box ≡ step box)
loop_no_update_example =
    loop_no_update sensors (λ t p. p) files digital_read 3 input box (ground arith)
      (unfold is_updating ota_begin in refl)

-- The box with one command in the queue.
abbrev commanded : Firmware Milli ℕ (Option (Json Milli))
commanded = record box { bot = enqueue power_consumers_off (bot true) }

offline-request_example :
    let (_, oldest, rest) = Queue.pop no_command (pending commanded.bot) in
    let w' = offline sensors (λ t p. p) files digital_read 3 input commanded in
    (pending w'.bot ≡ rest)
    × (oldest ≡ power_consumers_on → w'.switcher.consumer_power_request ≡ true)
    × (oldest ≡ power_consumers_off → w'.switcher.consumer_power_request ≡ false)
offline-request_example =
    offline-request sensors (λ t p. p) files digital_read 3 input commanded
      (enqueued power_consumers_off (bot true) bot-IsValid).1

-- The box as it is switched on, with the command to switch on in the queue.
abbrev waiting : Firmware Milli ℕ (Option (Json Milli))
waiting = record box { switcher = switcher_start; bot = enqueue power_consumers_on (bot true) }

abbrev input_at : ℕ → Input
input_at t = record input {
  switcher_times = record { button_time = t; power_time = t; change_time = t + 1 };
}

waiting-pending : pending waiting.bot ≡ power_consumers_on ∷ []
unfolding enqueue bot write rb_base elements remaining_elm
waiting-pending = refl

command_powers_up_example :
    let step = offline sensors (λ t p. p) files digital_read 3 in
    (step (input_at 9500) (
      step
        (input_at 8000)
        (step (input_at 7000) (step (input_at 6000) waiting)))).switcher.consumers_state
    ≡ ConsumersState.consumers_on_idle
unfolding switcher_start
command_powers_up_example =
    command_powers_up sensors (λ t p. p) files digital_read 3 (input_at 6000) (input_at 7000)
      (input_at 8000) (input_at 9500) waiting (record { locked = refl; released = refl }) refl
      (enqueued power_consumers_on (bot true) bot-IsValid).1 waiting-pending (omega arith)
      (omega arith) (omega arith) (λ p. refl)

abbrev relay_query : Message
relay_query = record {
  message_type = message_query;
  type_number = 2;
  text = "";
  sender = observer;
  callback_query_data = "RelayConsumers";
}

-- A press, an address, the button in the chat for the consumers, a call of `loop` that finds two messages, and the loss of the network.
abbrev evening : List Happening
evening =
    isr false 4000
    ∷ got_ip 4100 4101 "192.168.1.2"
    ∷ chat_button relay_consumers 4200 relay_query
    ∷ call (record input {
      messages =
          record {
            message_type = message_text;
            type_number = 1;
            text = "/toggleecho";
            sender = observer;
            callback_query_data = "";
          }
          ∷ relay_query
          ∷ [];
    })
    ∷ disconnected 90000 90001
    ∷ call input
    ∷ []

box-IsSound_example :
    IsSound 3
      (box_after sensors (λ t p. p) files digital_read 3 (λ p. p) 1 screen_input 7 none evening)
box-IsSound_example =
    box-IsSound Milli-IsOrdered sensors (λ t p. p) files digital_read 3 (omega arith) (λ p. p) 1
      screen_input 7 none evening

evening-HasNoRelayQueries : HasNoRelayQueries evening
unfolding HasNoRelayQueries
evening-HasNoRelayQueries = ground arith

box-AreRelaysInState_example :
    let w =
      box_after sensors (λ t p. p) files digital_read 3 (λ p. p) 1 screen_input 7 none evening in
    let s' = (offline sensors (λ t p. p) files digital_read 3 input w).switcher in
    AreRelaysInState true w.switcher.consumers_state w.switcher
    × (w.switcher.consumers_state ≡ ConsumersState.consumers_off_idle
        → s'.consumers_state ≡ ConsumersState.consumers_off_idle
        → AreReleased true s')
box-AreRelaysInState_example =
    box-AreRelaysInState true sensors (λ t p. p) files digital_read 3 (λ p. p) 1 screen_input 7 none
      evening input evening-HasNoRelayQueries

-- The box with all running, and the command to switch off in the queue.
abbrev closing : Firmware Milli ℕ (Option (Json Milli))
closing = record box {
  switcher = record switcher_start { consumers_state = ConsumersState.consumers_on_idle };
  bot = enqueue power_consumers_off (bot true);
}

closing-pending : pending closing.bot ≡ power_consumers_off ∷ []
unfolding enqueue bot write rb_base elements remaining_elm
closing-pending = refl

command_powers_down_example :
    let step = offline sensors (λ t p. p) files digital_read 3 in
    let w2 = step (input_at 7000) (step (input_at 6000) closing) in
    (w2.switcher.consumers_state ≡ ConsumersState.consumers_on_wait4pc_shutdown)
    × ((step (input_at 8000) w2).switcher.consumers_state ≡ ConsumersState.consumers_off_idle)
unfolding switcher_start
command_powers_down_example =
    command_powers_down sensors (λ t p. p) files digital_read 3 (input_at 6000) (input_at 7000)
      (input_at 8000) closing (record { locked = refl; released = refl }) refl
      (enqueued power_consumers_off (bot true) bot-IsValid).1 closing-pending (omega arith)
      (inl (λ p. refl))

-- The box while it waits for the PC.
abbrev asking : Firmware Milli ℕ (Option (Json Milli))
asking = record box {
  switcher = record switcher_start {
    consumers_state = ConsumersState.consumers_on_wait4pc_shutdown;
  };
}

asking-state : asking.switcher.consumers_state ≢ ConsumersState.consumers_off_idle
asking-state = ground arith

loop_shuts_pc_down_example :
    let state = asking.switcher.consumers_state in
    (doc : Json Milli) × ((loop sensors (λ t p. p) files digital_read 3 input asking).comm.sent
      ≡ doc ∷ asking.comm.sent)
    × (state ≡ ConsumersState.consumers_on_wait4pc_shutdown
        → (parse_rx_data (λ doc. "{}") true "192.168.1.2" (some doc) (esp_comm [])).shutdowns ≡ 1)
    × (state ≢ ConsumersState.consumers_on_wait4pc_shutdown
        → (parse_rx_data (λ doc. "{}") true "192.168.1.2" (some doc) (esp_comm [])).shutdowns ≡ 0)
unfolding is_updating ota_begin is_connected connection_start comm_start esp_comm is_astro_mini_pc
loop_shuts_pc_down_example =
    loop_shuts_pc_down sensors (λ t p. p) files digital_read 3 (λ doc. "{}") exact-IsText true input
      asking (esp_comm []) refl refl asking-state (omega arith)

-- A box that nobody touches, while messages come.
abbrev quiet_night : List Happening
quiet_night =
    got_ip 4100 4101 "192.168.1.2"
    ∷ chat_button ping_request 4200 relay_query
    ∷ call (record input { messages = relay_query ∷ [] })
    ∷ disconnected 90000 90001
    ∷ call input
    ∷ []

quiet_night-IsUntouched : IsUntouched quiet_night
unfolding IsUntouched
quiet_night-IsUntouched = ground arith

box_stays_off_example :
    let s =
      (box_after sensors
        (λ t p. p)
        files
        digital_read
        3
        (λ p. p)
        1
        screen_input
        7
        none
        quiet_night).switcher in
    (s.consumers_state ≡ ConsumersState.consumers_off_idle)
    × (s.key_lock_state ≡ KeyLockState.locked_idle)
    × (s.consumer_power_request ≡ false)
    × (HasNoRelayQueries quiet_night → level false pin_consumers s.log ≡ false)
box_stays_off_example =
    box_stays_off sensors (λ t p. p) files digital_read 3 (λ p. p) 1 screen_input 7 none quiet_night
      quiet_night-IsUntouched
