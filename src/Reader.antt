-- ===== src/Reader.antt =====
-- reader.hpp and reader.cpp, class `Reader`: its state and buffer, the file header, the messages,
-- and the loops of `readChunk` and `tryToRecover`.
pub mod State
pub mod Header
pub mod Dispatch
pub mod Machine
pub mod Bounds
pub mod Session
pub mod Frames
