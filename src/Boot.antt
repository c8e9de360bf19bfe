-- ===== src/Boot.antt =====
-- entrypoint/uos.py: the entrypoint of the UniFi OS image.
pub mod Settings
pub mod Links
pub mod Stamps
pub mod Sequence
pub mod Tests
