-- ===== src/Oled/StatusBar/Icons.antt =====
-- What the icons show.
use astro_photo_power_box.Prelude.{
  ℕ, ◌≤◌, ◌≡◌, ◌≢◌, Bool, true, false, some, none, ℤ, pos, negsuc, ◌≤ℤ◌, arith,
}
use astro_photo_power_box.Float.{Float}
use astro_photo_power_box.Oled.StatusBar.{blink, charge_bars, wifi_bars, wifi_strength_value}

-- The Wi-Fi icon shows the missing connection without an address, at 0 dBm and below -70 dBm.
-- Otherwise it shows from one to four bars, one for each limit that the signal reaches.
pub wifi_bars_lem :
    (connected : Bool) (dbm : ℤ)
    → (connected ≡ false → wifi_bars connected dbm ≡ none)
      × (dbm ≡ pos 0 → wifi_bars connected dbm ≡ none)
      × (dbm ≤ℤ negsuc 70 → wifi_bars connected dbm ≡ none)
      × (connected ≡ true → negsuc 69 ≤ℤ dbm → dbm ≤ℤ negsuc 67 → wifi_bars connected dbm ≡ some 1)
      × (connected ≡ true → negsuc 66 ≤ℤ dbm → dbm ≤ℤ negsuc 60 → wifi_bars connected dbm ≡ some 2)
      × (connected ≡ true → negsuc 59 ≤ℤ dbm → dbm ≤ℤ negsuc 56 → wifi_bars connected dbm ≡ some 3)
      × (connected ≡ true → negsuc 55 ≤ℤ dbm → dbm ≢ pos 0 → wifi_bars connected dbm ≡ some 4)
unfolding wifi_bars wifi_strength_value
wifi_bars_lem connected dbm = ground arith

module _ {F : Type 0} ⦃f : Float F⦄ where
  -- The battery icon draws at most three bars. Where it is neither charging below 95 percent nor
  -- below 20 percent, it draws at least one; below 20 percent and not charging it draws the empty
  -- frame or nothing, by the blinking.
  pub charge_bars_lem :
      (soc : F) (charging : Bool) (time : ℕ)
      → ((n : ℕ) → charge_bars soc charging time ≡ some n → n ≤ 3)
        × (charging ≡ false
            → f.lt soc (f.lit (pos 20) 0) ≡ true
            → charge_bars soc charging time ≡ (elim (blink time) [ true ↦ none | false ↦ some 0 ]))
        × (charging ≡ false
            → f.lt soc (f.lit (pos 20) 0) ≡ false
            → charge_bars soc charging time ≢ none × charge_bars soc charging time ≢ some 0)
  unfolding charge_bars
  charge_bars_lem soc charging time = ground arith
