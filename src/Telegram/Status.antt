-- ===== src/Telegram/Status.antt =====
-- The text of the bot's status.
use astro_photo_power_box.Prelude.{
  ℕ, ◌+◌, ◌-◌, ◌/◌, ◌%◌, ◌≤◌, ◌<◌, ◌≡◌, List, [], ◌∷◌, ℤ, pos, negsuc, arith, refl, ap, ◌∙◌,
}
use astro_photo_power_box.Float.{Float, whole}
use astro_photo_power_box.Sensors.Types.{PowerReader, psens_ch1_battery}
use astro_photo_power_box.Battery.{Battery}
use astro_photo_power_box.Telegram.Bot.{
  Piece, word, number, Wording, snprintf, div_t, magnitude, sign_text, status_text,
}

-- The pieces that show the current: the last three.
abbrev pub current_pieces : Wording → List Piece
current_pieces (snprintf size format (a ∷ b ∷ c ∷ d ∷ e ∷ rest)) = rest
current_pieces other = []

-- With a sign, whole amperes and milliamperes.
abbrev shown : ℤ → List Piece
shown x =
    let (quot, rem) = div_t x 1000 in
    word (sign_text rem) ∷ number quot ∷ number (magnitude rem) ∷ []

negative_div :
    (n : ℕ)
    → 1000 ≤ n + 1
    → 0 < (n + 1) % 1000
    → shown (negsuc n)
      ≡ word "\\-" ∷ number (negsuc ((n + 1) / 1000 - 1)) ∷ number (pos ((n + 1) % 1000)) ∷ []
negative_div n h k = ground arith

module _ {F P : Type 0} ⦃f : Float F⦄ (sensors : PowerReader F P) (battery : Battery F) where
  -- The status reads the battery's voltage and then its current. A current of minus one ampere or less
  -- that has milliamperes left over is shown with the escaped minus sign and then once more with that of
  -- its whole amperes, which is not escaped.
  pub status_text_lem :
      (p : P) (n : ℕ)
      → (f.to_int (
            f.mul
              (sensors.get_current psens_ch1_battery (sensors.get_voltage psens_ch1_battery p).1).0
              (whole 1000))
          ≡ negsuc n)
      → 1000 ≤ n + 1
      → 0 < (n + 1) % 1000
      → let (text, p') = status_text sensors battery p in
        (p' ≡ (sensors.get_current psens_ch1_battery (sensors.get_voltage psens_ch1_battery p).1).1)
        × (current_pieces text
            ≡ word "\\-"
              ∷ number (negsuc ((n + 1) / 1000 - 1))
              ∷ number (pos ((n + 1) % 1000))
              ∷ [])
  unfolding status_text
  status_text_lem p n e h k = (refl, ap shown e ∙ negative_div n h k)
