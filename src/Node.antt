-- ===== src/Node.antt =====
-- The firmware of a node, node/main.
pub mod Ota
pub mod Neopixel
pub mod Effects
pub mod Endstop
pub mod Config
pub mod Wifi
pub mod Heater
pub mod Gatt
pub mod Boot
pub mod Running
mod Tests
pub mod OtaTests
pub mod ConfigTests
mod GattTests
mod HeaterTests
