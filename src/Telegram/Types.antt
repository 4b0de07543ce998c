-- ===== src/Telegram/Types.antt =====
-- `e_telegram_command` (src/telegram_bot/telegram_bot.hpp).
pub data TelegramCommand : Type 0 where
  no_command power_consumers_on power_consumers_off : TelegramCommand
  htr1_off htr1_5w htr1_10w htr1_15w htr1_auto : TelegramCommand
  htr2_off htr2_5w htr2_10w htr2_15w htr2_auto : TelegramCommand
