-- ===== src/Reader/Session.antt =====
-- A configuration with the buffer and the chunk put in: what a session does with messages does not
-- depend on these.
use ulog_cpp.Prelude.{ℕ, Bytes}
use ulog_cpp.Reader.State.{Config}

module _ {S : Type 0} where
  -- `c` with these bytes in the buffer, its capacity, the count of bytes read, and the chunk.
  abbrev pub place : Bytes → ℕ → ℕ → Bytes → Config S → Config S
  place partial capacity total input c = record {
    reader = record c.reader { partial = partial; capacity = capacity; total_num_read = total };
    handler = c.handler;
    input = input;
  }
