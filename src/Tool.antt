-- ===== src/Tool.antt =====
-- pkg/tool: helpers on text, slices and keys.
pub mod Aes
pub mod Sealed
pub mod Numbers
pub mod Reversed
pub mod Text
pub mod Bytes
pub mod Whole
