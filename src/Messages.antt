-- ===== src/Messages.antt =====
-- messages.hpp and messages.cpp: one module for each family of message classes. A constructor
-- from a raw message is `parse_…`; `serialize` gives the bytes that its calls of the writer
-- callback hand over, in order (every `throw` stands before the first call).
pub mod Logged
pub mod Logging
pub mod Info
pub mod Format
pub mod FileHeader
pub mod Equality
