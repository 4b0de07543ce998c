-- ===== src/Firmware/Starting.antt =====
-- What the calls that the connection's loop makes of the other components leave alone.
use astro_photo_power_box.Prelude.{◌≡◌, ◌∙◌, ap, arith}
use astro_photo_power_box.RingBuffer.Inv.{IsValid}
use astro_photo_power_box.RingBuffer.Queue as Queue
use astro_photo_power_box.RingBuffer.Contents.{contents}
use astro_photo_power_box.Telegram.Types.{no_command}
use astro_photo_power_box.Telegram.Bot.{Bot, get_and_clear_command}
use astro_photo_power_box.Telegram.Commands.{pending, get_and_clear_command_lem}
use astro_photo_power_box.Connection.{Connection}
use astro_photo_power_box.Communication.{Communication}
use astro_photo_power_box.Firmware.{Input, started_bot, started_comm}

pub started_bot-queue :
    (i : Input) (c : Connection) (b : Bot)
    → (started_bot i c b).pending_commands ≡ b.pending_commands
unfolding started_bot
started_bot-queue i c b = ground arith

pub started_comm-sent :
    {F : Type 0} (i : Input) (c : Connection) (comm : Communication F)
    → (started_comm i c comm).sent ≡ comm.sent
unfolding started_comm
started_comm-sent i c comm = ground arith

-- The command that leaves the queue is the oldest one, whether the bot is started first or not.
pub started_bot-command :
    (i : Input) (c : Connection) (b : Bot)
    → IsValid b.pending_commands
    → let (cmd, b') = get_and_clear_command (started_bot i c b) in
      let (_, first, rest) = Queue.pop no_command (pending b) in
      (cmd ≡ first) × (pending b' ≡ rest) × IsValid b'.pending_commands
started_bot-command i c b v =
    let e = started_bot-queue i c b in
    let (first, rest, v', _) = get_and_clear_command_lem (started_bot i c b) (rw e v) in
    (
      first ∙ ap (λ r. (Queue.pop no_command (contents no_command r)).1) e,
      rest ∙ ap (λ r. (Queue.pop no_command (contents no_command r)).2) e,
      v',
    )
