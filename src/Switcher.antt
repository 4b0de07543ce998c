-- ===== src/Switcher.antt =====
-- The switcher (src/switcher): the button with its key lock, the relays and heaters of the
-- consumers, and the charger.
pub mod Types
pub mod Pins
pub mod KeyLock
pub mod Consumers
pub mod Charging
pub mod Loop
mod Tests
