-- ===== src/Telegram/Bot/Types.antt =====
-- The state of the bot, its messages and its replies (src/telegram_bot/telegram_bot.hpp).
use Prim.Native.String.{String}
use astro_photo_power_box.Prelude.{ℤ, ℕ, Bool, true, false, List, [], ◌∷◌, if◌then◌else◌}
use astro_photo_power_box.RingBuffer.{RbBase, rb_base, write}
use astro_photo_power_box.Telegram.Types.{TelegramCommand, no_command}

pub data MessageType : Type 0 where
  message_query message_text message_reply message_other : MessageType

pub record Sender : Type 0 where
  pub id : ℤ
  pub first_name : String
  pub last_name : String
  pub username : String

pub record Message : Type 0 where
  pub message_type : MessageType
  pub type_number : ℕ
  pub text : String
  pub sender : Sender
  pub callback_query_data : String

-- A piece of a text, and a text: pieces after one another, or pieces put by `snprintf` in a format, in
-- a buffer of this size.
pub data Piece : Type 0 where
  word : String → Piece
  number : ℤ → Piece

pub data Wording : Type 0 where
  joined : List Piece → Wording
  snprintf : ℕ → String → List Piece → Wording

pub data Keyboard : Type 0 where
  relay_keyboard heater_keyboard : Keyboard

-- What is asked of the base class. `end_query` has an alert or not; `send_silently` is `sendMessage`
-- where the message has `disable_notification`.
pub data Reply : Type 0 where
  edit_message : Wording → Reply
  end_query : Wording → Bool → Reply
  send_message : Wording → Reply
  send_silently : Wording → Reply
  send_keyboard : Wording → Keyboard → Reply
  remove_reply_keyboard : Wording → Reply

abbrev pub literal : String → Wording
literal text = joined (word text ∷ [])

pub record Bot : Type 0 where
  pub init_ok : Bool
  pub keyboards_initialized : Bool
  pub echo_on : Bool
  pub heater_keyboard_visible : Bool
  pub pending_commands : RbBase TelegramCommand
  pub replies : List Reply

-- `_pendingCommands` has room for ten commands.
unfoldable pub bot : Bool → Bot
unfolding rb_base
bot allocated = record {
  init_ok = false;
  keyboards_initialized = false;
  echo_on = false;
  heater_keyboard_visible = false;
  pending_commands = rb_base no_command allocated 10;
  replies = [];
}

unfoldable pub reply : Reply → Bot → Bot
reply r b = record b { replies = r ∷ b.replies }

-- What is sent on to the switcher
unfoldable pub enqueue : TelegramCommand → Bot → Bot
unfolding write
enqueue c b = record b { pending_commands = (write c b.pending_commands).1 }

-- `begin`; `begin_ok` is what the base class answers.
unfoldable pub begin : Bool → Bot → Bool × Bot
begin begin_ok b =
    let b1 = record b { keyboards_initialized = true } in
    if begin_ok then (true, record b1 { init_ok = true }) else (false, b1)
