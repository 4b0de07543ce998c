-- ===== src/Switcher/Loop/Safety.antt =====
-- The whole switcher over any sequence of interrupts and calls of `loop`.
use astro_photo_power_box.Prelude.{ℕ, ◌≡◌, Bool, List, [], ◌∷◌, arith}
use astro_photo_power_box.Float.{Float}
use astro_photo_power_box.Board.{level}
use astro_photo_power_box.Sensors.Types.{PowerReader}
use astro_photo_power_box.Telegram.Types.{TelegramCommand}
use astro_photo_power_box.Switcher.Types.{
  Switcher, pin_mount, pin_consumers, pin_camera, start as start_state,
}
use astro_photo_power_box.Switcher.KeyLock.{button_isr, button_loop}
use astro_photo_power_box.Switcher.Consumers.{consumer_power_loop}
use astro_photo_power_box.Switcher.Consumers.Outputs.{
  AreRelaysInState, consumer_power_loop-AreRelaysInState,
}
use astro_photo_power_box.Switcher.Charging.{charge_switch_loop}
use astro_photo_power_box.Switcher.Loop.{Times, handle_command, loop}

module _ {F : Type 0} where
  -- Nothing that the relay invariant speaks of.
  pub record IsAside (start : Bool) (s s' : Switcher F) : Type 0 where
    pub state : s'.consumers_state ≡ s.consumers_state
    pub consumers : level start pin_consumers s'.log ≡ level start pin_consumers s.log
    pub mount : level start pin_mount s'.log ≡ level start pin_mount s.log
    pub camera : level start pin_camera s'.log ≡ level start pin_camera s.log

  pub button_loop-IsAside :
      (start : Bool) (t : ℕ) (s : Switcher F) → IsAside start s (button_loop t s)
  unfolding button_loop level
  button_loop-IsAside start t s = ground arith

  pub handle_command-IsAside :
      (start : Bool) (c : TelegramCommand) (s : Switcher F) → IsAside start s (handle_command c s)
  unfolding handle_command
  handle_command-IsAside start c s = ground arith

  IsAside-AreRelaysInState :
      (start : Bool) (s s' : Switcher F)
      → IsAside start s s'
      → AreRelaysInState start s.consumers_state s
      → AreRelaysInState start s'.consumers_state s'
  IsAside-AreRelaysInState start s s' a r = ground arith

module _ {F P : Type 0} ⦃f : Float F⦄ where
  pub charge_switch_loop-IsAside :
      (start : Bool) (sensors : PowerReader F P) (soc : F) (p : P) (s : Switcher F)
      → IsAside start s (charge_switch_loop sensors soc p s).1
  unfolding charge_switch_loop level
  charge_switch_loop-IsAside start sensors soc p s = ground arith

-- An interrupt of the button, or a call of `loop` with the command and the state of charge.
pub data Happening (F : Type 0) : Type 0 where
  isr : Bool → ℕ → Happening F
  call : Times → TelegramCommand → F → Happening F

module _ {F P : Type 0} ⦃f : Float F⦄ (sensors : PowerReader F P) where
  unfoldable pub happen : Happening F → P → Switcher F → P × Switcher F
  happen (isr level t) p s = (p, record s { btn_info = button_isr level t s.btn_info })
  happen (call t command soc) p s = loop sensors t command soc p s

  unfoldable pub history : List (Happening F) → P → Switcher F → P × Switcher F
  history [] p s = (p, s)
  history (h ∷ hs) p s = let (p', s') = happen h p s in history hs p' s'

  pub loop-AreRelaysInState :
      (start : Bool) (t : Times) (command : TelegramCommand) (soc : F) (p : P) (s : Switcher F)
      → AreRelaysInState start s.consumers_state s
      → let s' = (loop sensors t command soc p s).1 in AreRelaysInState start s'.consumers_state s'
  unfolding loop
  loop-AreRelaysInState start t command soc p s r =
      let s1 = button_loop t.button_time s in
      let s2 = handle_command command s1 in
      let (p3, s3) =
        consumer_power_loop sensors s2.consumer_power_request t.power_time t.change_time p s2 in
      let r1 = IsAside-AreRelaysInState start s s1 (button_loop-IsAside start t.button_time s) r in
      let r2 = IsAside-AreRelaysInState start s1 s2 (handle_command-IsAside start command s1) r1 in
      let r3 =
        consumer_power_loop-AreRelaysInState start sensors s2.consumer_power_request t.power_time
          t.change_time p s2 r2 in
      IsAside-AreRelaysInState start s3 (charge_switch_loop sensors soc p3 s3).1
        (charge_switch_loop-IsAside start sensors soc p3 s3) r3

  history-Relays :
      (start : Bool) (hs : List (Happening F)) (p : P) (s : Switcher F)
      → AreRelaysInState start s.consumers_state s
      → let s' = (history hs p s).1 in AreRelaysInState start s'.consumers_state s'
  unfolding history happen
  history-Relays start [] p s r = r
  history-Relays start (isr b t ∷ hs) p s r =
      history-Relays start hs p (record s { btn_info = button_isr b t s.btn_info })
        (record { quiet = r.quiet; powered = r.powered; serving = r.serving; closing = r.closing })
  history-Relays start (call t command soc ∷ hs) p s r =
      let (p', s') = loop sensors t command soc p s in
      history-Relays start hs p' s' (loop-AreRelaysInState start t command soc p s r)

  -- From power-on, over any interrupts, commands and calls of `loop`, and whatever the sensors say,
  -- the relays are in step with the state of the power sequence.
  pub history-AreRelaysInState :
      (start : Bool) (hs : List (Happening F)) (p : P)
      → let s = (history hs p start_state).1 in AreRelaysInState start s.consumers_state s
  history-AreRelaysInState start hs p =
      history-Relays start hs p start_state (unfold start_state in ground arith)
