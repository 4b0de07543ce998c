-- ===== src/Connection.antt =====
-- The Wi-Fi connection (src/connection/connection.hpp, connection.cpp), in a build with
-- MULTI_AP_LIST. What is asked of the Wi-Fi stack, of mDNS and of the other components is a list of
-- requests, the newest first; what they answer is an argument.
pub mod Events
mod Tests
use astro_photo_power_box.Prelude.{
  ℕ, ◌+◌, ◌-◌, u8, neg_part, ◌%◌, ◌==◌, Bool, true, false, not, ◌||◌, some, List, [], ◌∷◌, ℤ, pos,
  negsuc, pos_part, ◌+ℤ◌, ltb, sub32, if◌then◌else◌,
}
use Prim.Native.String.{String}
use astro_photo_power_box.Gfx.{Gfx, clear_display, set_cursor, plain}
use astro_photo_power_box.Oled.Printing.{center_text, show_warning}
use astro_photo_power_box.Oled.{Display, draw, on_canvas, suppress_content_temporary}

pub data WifiRequest : Type 0 where
  wifi_begin : ℤ → WifiRequest  -- with the network of this index
  wifi_reconnect mdns_begin mdns_update comm_setup telegram_begin telegram_reset : WifiRequest

pub record Connection : Type 0 where
  pub auth_ndx : ℤ  -- int_fast8_t
  pub disconnected_since : ℕ  -- uint32_t
  pub connected_since : ℕ  -- uint32_t
  pub last_reconnect : ℕ  -- uint32_t
  pub got_ip : Bool
  pub telegram_started : Bool
  pub mdns_started : Bool
  pub requests : List WifiRequest

-- The initial values, which `setup` leaves.
unfoldable pub start : Connection
start = record {
  auth_ndx = negsuc 0;
  disconnected_since = 0;
  connected_since = 0;
  last_reconnect = 0;
  got_ip = false;
  telegram_started = false;
  mdns_started = false;
  requests = [];
}

unfoldable pub request : WifiRequest → Connection → Connection
request r c = record c { requests = r ∷ c.requests }

-- `networks` is `ssid_list_len`.
unfoldable pub try_next_ssid : ℕ → ℕ → Connection → Connection
unfolding request
try_next_ssid networks sys_time c =
    let ndx = pos (pos_part (c.auth_ndx +ℤ pos 1) % networks) in
    request (wifi_begin ndx)
      (record c { auth_ndx = ndx; disconnected_since = sys_time; connected_since = 0 })

module _ {F : Type 0} ⦃g : Gfx F⦄ where
  -- The handler of `onStationModeGotIP`, with the text of the address; `show_time` is the clock in
  -- `suppressContentTemporary`.
  unfoldable pub on_got_ip : ℕ → ℕ → String → Connection → Display F → Connection × Display F
  unfolding draw on_canvas center_text suppress_content_temporary
  on_got_ip sys_time show_time ip c d =
      let d = draw (set_cursor (pos 0) (pos 0)) (draw clear_display d) in
      let d = on_canvas (λ v. (center_text (plain "Got IP:") v).1) d in
      let d = draw (set_cursor (pos 0) (pos 8)) d in
      let d = on_canvas (λ v. (center_text (plain ip) v).1) d in
      (
        record c { got_ip = true; connected_since = sys_time; disconnected_since = 0 },
        suppress_content_temporary show_time 3000 d,
      )

  -- A warning for so long.
  unfoldable pub warn : ℕ → String → ℕ → Display F → Display F
  unfolding draw on_canvas show_warning suppress_content_temporary
  warn show_time text duration d =
      suppress_content_temporary show_time duration
        (on_canvas (show_warning (some (plain text))) (draw clear_display d))

  -- The handler of `onStationModeDisconnected`.
  unfoldable pub on_disconnected : ℕ → ℕ → Connection → Display F → Connection × Display F
  unfolding request warn
  on_disconnected sys_time show_time c d =
      let c1 = record c { got_ip = false; connected_since = 0; telegram_started = false } in
      let lost = c.disconnected_since == 0 in
      let c2 = if lost then record c1 { disconnected_since = sys_time } else c1 in
      let d2 = if lost then warn show_time "WiFi lost" 3000 d else d in
      if ltb 60000 (sub32 sys_time c.last_reconnect)
      then (
        request wifi_reconnect (request telegram_reset (record c2 { last_reconnect = sys_time })),
        warn show_time "Reconnect..." 1000 d2,
      )
      else (c2, d2)

unfoldable pub is_connected : Connection → Bool
is_connected c = c.got_ip

-- `getSSIDndx`: the index as a `uint8_t`, 255 for -1.
unfoldable pub get_ssid_ndx : Connection → ℕ
get_ssid_ndx c = u8 (pos_part c.auth_ndx + 256 - neg_part c.auth_ndx)

-- `loop`; `mdns_ok` and `telegram_ok` are what `MDNS.begin` and `telegramBot.begin` return where they
-- are called. The two readings of the clock are those of the test and of `_tryNextSSID`.
unfoldable pub loop : ℕ → Bool → Bool → ℕ → ℕ → Connection → Connection
unfolding is_connected request try_next_ssid
loop networks mdns_ok telegram_ok sys_time try_time c =
    let c1 =
      if c.mdns_started
      then request mdns_update c
      else (if mdns_ok
          then request comm_setup (request mdns_begin (record c { mdns_started = true }))
          else request mdns_begin c) in
    let c2 =
      if c.telegram_started
      then c1
      else request telegram_begin (record c1 { telegram_started = telegram_ok }) in
    if is_connected c
    then c2
    else (if ltb 10000 (sub32 sys_time c.disconnected_since)
        then try_next_ssid networks try_time c
        else c)
