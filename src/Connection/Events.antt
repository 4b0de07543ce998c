-- ===== src/Connection/Events.antt =====
-- The connection over any sequence of events of the Wi-Fi stack and calls of `loop`.
use native.Mathlib.Nat.{mod-add-mod}
use astro_photo_power_box.Prelude.{
  refl, sym, ℕ, zero, suc, ◌+◌, ◌%◌, ◌≤◌, ◌<◌, ◌≡◌, Bool, true, false, List, [], ◌∷◌, pos, negsuc,
  pos_part, +ℤ_parts, ◌∙◌, sub32, arith, ap, ◌⊎◌,
}
use Prim.Native.String.{String}
use astro_photo_power_box.Gfx.{Gfx}
use astro_photo_power_box.Oled.{Display}
use astro_photo_power_box.Connection.{
  Connection, wifi_begin, wifi_reconnect, telegram_reset, start, try_next_ssid, on_got_ip,
  on_disconnected, is_connected, loop,
}

-- An event, or a call of `loop` with the answers it gets and the clock.
pub data Event : Type 0 where
  got_ip_event : ℕ → ℕ → String → Event
  disconnected_event : ℕ → ℕ → Event
  loop_call : Bool → Bool → ℕ → ℕ → Event

module _ {F : Type 0} ⦃g : Gfx F⦄ where
  unfoldable pub event : ℕ → Event → Connection → Display F → Connection × Display F
  event networks (got_ip_event t t' ip) c d = on_got_ip t t' ip c d
  event networks (disconnected_event t t') c d = on_disconnected t t' c d
  event networks (loop_call m b t t') c d = (loop networks m b t t' c, d)

  unfoldable pub events : ℕ → List Event → Connection → Display F → Connection × Display F
  events networks [] c d = (c, d)
  events networks (e ∷ es) c d = let (c', d') = event networks e c d in events networks es c' d'

-- What holds between events: a bot that was started has its connection, and no time of a
-- disconnection is kept with it.
pub record IsConsistent (networks : ℕ) (c : Connection) : Type 0 where
  pub telegram_needs : c.telegram_started ≡ true → c.got_ip ≡ true
  pub no_disconnection : c.got_ip ≡ true → c.disconnected_since ≡ 0
  pub index_in :
      (c.auth_ndx ≡ negsuc 0)
      ⊎ ((c.auth_ndx ≡ pos (pos_part c.auth_ndx)) × (pos_part c.auth_ndx < networks))

module _ {F : Type 0} ⦃g : Gfx F⦄ where
  pub event-IsConsistent :
      (networks : ℕ) (e : Event) (c : Connection) (d : Display F)
      → 0 < networks
      → IsConsistent networks c
      → IsConsistent networks (event networks e c d).0
  unfolding event on_got_ip on_disconnected loop
  event-IsConsistent networks (got_ip_event t t' ip) c d n v = ground arith
  event-IsConsistent networks (disconnected_event t t') c d n v = ground arith
  event-IsConsistent networks (loop_call m b t t') c d n v = ground arith

  -- From `setup` on, over any events and calls of `loop`: the bot is taken for started only while
  -- there is an address, the time of a disconnection is cleared while there is one, and the index of
  -- the network is -1 or inside the list.
  events-IsConsistent :
      (networks : ℕ) (es : List Event) (c : Connection) (d : Display F)
      → 0 < networks
      → IsConsistent networks c
      → IsConsistent networks (events networks es c d).0
  unfolding events
  events-IsConsistent networks [] c d n v = v
  events-IsConsistent networks (e ∷ es) c d n v =
      let (c', d') = event networks e c d in
      events-IsConsistent networks es c' d' n (event-IsConsistent networks e c d n v)

pub start-IsConsistent : (networks : ℕ) → IsConsistent networks start
unfolding start
start-IsConsistent networks = ground arith

-- Attempts to connect, one after the other.
unfoldable pub attempts : ℕ → ℕ → ℕ → Connection → Connection
attempts networks zero t c = c
attempts networks (suc k) t c = try_next_ssid networks t (attempts networks k t c)

next_index :
    (networks t j : ℕ) (c : Connection)
    → c.auth_ndx ≡ pos j
    → (try_next_ssid networks t c).auth_ndx ≡ pos ((j + 1) % networks)
unfolding try_next_ssid
next_index networks t j c h = ground (arith, +ℤ_parts c.auth_ndx (pos 1))

first_index : (networks t : ℕ) → (try_next_ssid networks t start).auth_ndx ≡ pos (0 % networks)
unfolding try_next_ssid start
first_index networks t = ground (arith, +ℤ_parts (negsuc 0) (pos 1))

suc_index : (k n : ℕ) → suc k % n ≡ (k % n + 1) % n
suc_index k n = sym (rw (mod-add-mod k n 1) (ap (λ x. x % n) (one_more k)))
  where
    one_more : (k : ℕ) → k + 1 ≡ suc k
    one_more k = omega arith

attempts_index :
    (networks k t : ℕ)
    → 0 < networks
    → (attempts networks (suc k) t start).auth_ndx ≡ pos (k % networks)
unfolding attempts
attempts_index networks zero t h = first_index networks t
attempts_index networks (suc k) t h =
    next_index networks t (k % networks) (attempts networks (suc k) t start)
      (attempts_index networks k t h)
    ∙ ap pos (sym (suc_index k networks))

begun :
    (networks t : ℕ) (c : Connection)
    → (try_next_ssid networks t c).requests
      ≡ wifi_begin (try_next_ssid networks t c).auth_ndx ∷ c.requests
unfolding try_next_ssid
begun networks t c = refl

-- The networks of the list are tried in turn, from the first one on and again after the last: the
-- Wi-Fi stack is asked to begin with the network of this index, once for each attempt, and nothing else
-- is asked, and the index is kept.
pub attempts_lem :
    (networks k t : ℕ)
    → 0 < networks
    → let c = attempts networks (suc k) t start in
      (c.requests ≡ wifi_begin (pos (k % networks)) ∷ (attempts networks k t start).requests)
      × (c.auth_ndx ≡ pos (k % networks))
unfolding attempts
attempts_lem networks k t h =
    let index = attempts_index networks k t h in
    (
      begun networks t (attempts networks k t start)
          ∙ ap (λ n. wifi_begin n ∷ (attempts networks k t start).requests) index,
      index,
    )

module _ {F : Type 0} ⦃g : Gfx F⦄ where
  -- A lost connection is given up and the bot reset; the Wi-Fi stack is asked to reconnect just if more
  -- than a minute has passed since it was asked last.
  pub on_disconnected_lem :
      (t t' : ℕ) (c : Connection) (d : Display F)
      → let c' = (on_disconnected t t' c d).0 in
        (is_connected c' ≡ false)
        × (c'.telegram_started ≡ false)
        × (60000 < sub32 t c.last_reconnect
            → (c'.requests ≡ wifi_reconnect ∷ telegram_reset ∷ c.requests)
              × (c'.last_reconnect ≡ t))
        × (sub32 t c.last_reconnect ≤ 60000
            → (c'.requests ≡ c.requests) × (c'.last_reconnect ≡ c.last_reconnect))
  unfolding on_disconnected is_connected
  on_disconnected_lem t t' c d = ground arith
