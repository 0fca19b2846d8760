-- ===== src/Vm.antt =====
-- server/src/vm.rs, server/src/webrtc/screen.rs and vm/src: the settings of the stream, the buttons of
-- the host, and the scripts that users keep on the device.
pub mod Screen
pub mod Gpio
pub mod Scripts
pub mod Autostart
pub mod Hostname
pub mod Settings
pub mod Info
pub mod Swap
pub mod VirtualDevice
mod Tests
