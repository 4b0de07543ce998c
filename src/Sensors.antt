-- ===== src/Sensors.antt =====
-- The current and voltage sensors (src/sensors/power): the driver of the INA3221 chip and the
-- channels of the two chips.
pub mod Types
pub mod Wire
pub mod Ina3221
pub mod Psens
mod Tests
