-- ===== src/Communication/Status.antt =====
-- What the status message says, and how often it is sent.
use astro_photo_power_box.Prelude.{
  ℕ, ◌≤◌, ◌<◌, ◌≡◌, Bool, true, ◌∷◌, ℤ, sub32, lt→ltb, ge→ltb, refl, arith,
}
use astro_photo_power_box.Float.{Float}
use astro_photo_power_box.Board.{Log}
use astro_photo_power_box.Switcher.Types.{Switcher, ConsumersState, state_number}
use astro_photo_power_box.Battery.{Battery}
use astro_photo_power_box.Communication.{Communication, Psensors, compose, transmit}
use astro_photo_power_box.Communication.Types.{no_tx}
use astro_photo_power_box.Communication.Convert.{tx_to_json}

module _ {F P : Type 0} ⦃f : Float F⦄ (sensors : Psensors F P) where
  pub compose_asks :
      (digital_read : Log → ℕ → Bool) (sys_time : ℕ) (rssi : ℤ) (s : Switcher F) (b : Battery F)
      (p : P)
      → let (tx, _) = compose sensors digital_read sys_time rssi s b p in
        (tx.shutdown_pc ≡ true → s.consumers_state ≡ ConsumersState.consumers_on_wait4pc_shutdown)
        × (s.consumers_state ≡ ConsumersState.consumers_on_wait4pc_shutdown → tx.shutdown_pc ≡ true)
  unfolding compose no_tx state_number
  compose_asks digital_read sys_time rssi s b p = (ground arith, ground arith)

  -- A message is sent just if more than a second has passed since the last one, and the time of the
  -- next one counts from there.
  pub transmit_lem :
      (digital_read : Log → ℕ → Bool) (sys_time send_time : ℕ) (rssi : ℤ) (s : Switcher F)
      (b : Battery F) (p : P) (c : Communication F)
      → let (c', p') = transmit sensors digital_read sys_time send_time rssi s b p c in
        let (tx, p1) = compose sensors digital_read send_time rssi s b p in
        (sub32 sys_time c.last_tx_time ≤ 1000 → (c' ≡ c) × (p' ≡ p))
        × (1000 < sub32 sys_time c.last_tx_time
            → (c'.sent ≡ tx_to_json tx ∷ c.sent) × (c'.last_tx_time ≡ sys_time) × (p' ≡ p1))
  unfolding transmit
  transmit_lem digital_read sys_time send_time rssi s b p c = (
    λ h. rw (ge→ltb 1000 (sub32 sys_time c.last_tx_time) h) (refl, refl),
    λ h. rw (lt→ltb 1000 (sub32 sys_time c.last_tx_time) h) (refl, refl, refl),
  )
