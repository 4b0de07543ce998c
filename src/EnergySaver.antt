-- ===== src/EnergySaver.antt =====
-- `energySaver` (src/energy saver/energy_saver.hpp, energy_saver.cpp). `delay` and the Wi-Fi stack's
-- sleep modes are not in the repository: what is asked of them is a list, the newest first.
use astro_photo_power_box.Prelude.{
  ℕ, ◌==◌, Bool, true, false, not, ◌&&◌, List, [], ◌∷◌, ltb, sub32, if◌then◌else◌,
}

pub data SleepRequest : Type 0 where
  light_sleep none_sleep : SleepRequest
  delay : ℕ → SleepRequest

pub record EnergySaver : Type 0 where
  pub modem_sleep : Bool
  pub sleep_limit : ℕ  -- uint32_t
  pub wifi_conn_since : ℕ  -- uint32_t
  pub requests : List SleepRequest

unfoldable pub energy_saver : EnergySaver
energy_saver = record {
  modem_sleep = false;
  sleep_limit = 1000;
  wifi_conn_since = 0;
  requests = [];
}

abbrev ask_sleep : SleepRequest → EnergySaver → EnergySaver
ask_sleep r e = record e { requests = r ∷ e.requests }

unfoldable pub setup : EnergySaver → EnergySaver
setup e = ask_sleep light_sleep (record e { modem_sleep = true })

unfoldable pub set_sleep_limit : ℕ → EnergySaver → EnergySaver
set_sleep_limit sleep_limit e = record e { sleep_limit = sleep_limit }

unfoldable pub get_keep_awake : EnergySaver → Bool
get_keep_awake e = not e.modem_sleep

-- `loop`: the sleep that it reports. `connected` is `WiFi.isConnected()`; the readings of the clock are
-- the one that starts the connection, and those before and behind the sleep.
unfoldable pub loop : Bool → ℕ → ℕ → ℕ → ℕ → EnergySaver → ℕ × EnergySaver
loop connected conn_time sleep_start sleep_end max_sleep_time e =
    let since =
      if not connected
      then 0
      else if e.wifi_conn_since == 0
      then conn_time
      else e.wifi_conn_since in
    let e = record e { wifi_conn_since = since } in
    let limited = if ltb e.sleep_limit max_sleep_time then e.sleep_limit else max_sleep_time in
    if e.modem_sleep && not (max_sleep_time == 0)
    then (sub32 sleep_end sleep_start, ask_sleep (delay limited) e)
    else (1, ask_sleep (delay 10) e)

-- `_setModemSleep`
unfoldable pub set_modem_sleep : Bool → EnergySaver → EnergySaver
set_modem_sleep sleep e =
    let asked = ask_sleep (if sleep then light_sleep else none_sleep) e in
    record (if sleep
      then (if e.modem_sleep then e else asked)
      else if e.modem_sleep
      then asked
      else e) { modem_sleep = sleep }
