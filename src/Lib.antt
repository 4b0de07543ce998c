-- ===== src/Lib.antt =====
-- AstroPhotoPowerBox: the firmware of a battery box for astrophotography (an ESP8266 board) and
-- parts of the program on the PC that listens to it.
--
-- The parts and how they interact. `loop` of src/main.cpp calls the components in turn (Firmware):
-- while the Wi-Fi is connected the update over the air (Ota: src/ota), the status messages
-- (Communication: src/communication) and the Telegram bot (Telegram: src/telegram_bot); then the
-- connection (Connection: src/connection), the switcher of the relays, heaters, charger and key lock
-- (Switcher: src/switcher), the battery statistics on the file system (NonVolatile:
-- src/non volatile), the energy saver (EnergySaver: src/energy saver), the power sensors (Sensors:
-- src/sensors/power), the battery (Battery: src/battery) and the display (Oled: src/oled), which
-- draws through Gfx. The bot hands its commands to the switcher through the ring buffer (RingBuffer:
-- lib/ringbuffer), which the moving average (MovingAverage: lib/moving average) also uses. The battery
-- reads the sensors and hands its charge to the statistics. The PC program (Gui: gui/AstroBoxGUI) reads the JSON documents
-- that the status messages send. Json holds such documents; Board is the log of what the firmware
-- asks of the pins, and Gfx that of the calls that draw; Float is the interface of the floats; Prelude
-- has what all of them share.
--
-- State and operations. The static variables of a namespace or the members of a class are one
-- record; a function or a method that changes them takes the record and returns the new one, under
-- its name in snake_case. A C++ function that is long is split into the function for its switch or
-- loop and the one that calls it. Readings of the clock (`millis`) are arguments, one for each
-- reading; `uint32_t` differences are `sub32`, which wraps.
--
-- Histories. Firmware.History has the whole box from power-on: `setup`, and then the interrupts of the
-- button, the callbacks of the Wi-Fi stack and of the chat's keyboards, and calls of `loop`, in any
-- order. The callback of a keyboard button, which runs where the bot's base class hands out a message,
-- stands between two calls of `loop` there. Firmware.PowerUp and Firmware.PowerDown follow a command
-- over several calls, and Firmware.Shutdown follows a message to the PC.
--
-- Bounds and fuel. The loop that empties the I2C receive buffer runs on fuel, and a theorem says that
-- more fuel than waiting bytes is enough. The loop of `movingAverage::reset` runs on fuel as well, for
-- which a theorem says that more fuel than the window has slots is enough. Other loops have the bounds
-- of the source (three channels, 32 flags, ten messages). A JSON document has the pool of the source
-- (1024 bytes for a message, 256 for the statistics), out of which each member takes its
-- slot (Json.Pool). Machine words are natural numbers with their wrap-around written out; `int32_t` sums
-- and products in the battery wrap, as the compiler has them.
--
-- Parameters. Floats (`Float`, with the IEEE 754 facts `IsOrdered` and `IsScaling` where a theorem
-- needs them, the latter for finite values in the ranges of the firmware; `Milli` is a type in which
-- they hold), the I2C bus (`TwoWire`), the file system (`FileSystem`, with `IsKeeping`), the text of a
-- JSON document and its reading (`IsText`), the getters of the graphics library (`Gfx`, with
-- `IsPixelMemory`), the reading back of pins, the answers of the Wi-Fi stack, of mDNS, of the update library and of the bot's base class:
-- this code is not in the repository. `Float.Signed` is a type of floats with negative numbers, for tests.
--
-- Not modelled: the rendering of what is drawn, the formatting of texts (a text is its format with the
-- values put in), the window of the PC program, the debug print, the device's name, and the libraries in
-- gui/AstroBoxGUI/qtzeroconf.
pub mod Prelude
pub mod Float
pub mod Board
pub mod Gfx
pub mod Json
pub mod RingBuffer
pub mod MovingAverage
pub mod Sensors
pub mod Telegram
pub mod Switcher
pub mod Oled
pub mod NonVolatile
pub mod Battery
pub mod Connection
pub mod Ota
pub mod EnergySaver
pub mod Firmware
pub mod Communication
pub mod Gui
