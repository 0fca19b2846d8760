-- ===== src/Storage.antt =====
-- storage/src/ and the handlers over it: the health of the SD card, and the disk images.
pub mod Health
pub mod Images
mod Tests
