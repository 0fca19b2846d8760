-- ===== src/Hid.antt =====
-- hid/src/lib.rs, vm/src/jiggler.rs and server/src/hid/mouse_scroll.rs: the reports to the host's USB.
pub mod Engine
pub mod Jiggler
pub mod MouseScroll
pub mod Layouts
pub mod Paste
pub mod Shortcuts
mod Tests
