-- ===== src/Storage.antt =====
-- src/FlashLogStorage.cpp and include/FlashLogStorage.h: a ring of frames in a range of the flash,
-- with an index in RAM. This file has the configuration, the arithmetic of addresses and sequence
-- numbers, the state, and the locks; the children have the operations.
mod Address
pub mod State
pub mod Guard
pub mod Scan
pub mod Init
pub mod Append
pub mod Read
pub mod Frames
pub mod Layout
pub mod Safety
pub mod Erase
pub mod Recovery
pub mod Invariant
unfoldable pub use Address.*
