-- ===== src/Telegram.antt =====
-- The Telegram bot (src/telegram_bot).
pub mod Types
pub mod Bot
pub mod Commands
pub mod Handling
pub mod Keyboards
pub mod Orders
pub mod Status
mod Tests
