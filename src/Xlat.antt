-- ===== src/Xlat.antt =====
-- natto64-xlat: allocation-free packet translation primitives.
pub mod Checksum
pub mod Wire
pub mod Headers
