-- ===== src/Reader/State.antt =====
-- reader.hpp: the state of `Reader`; reader.cpp: its partial message buffer and corruption.
use ulog_cpp.Prelude.{
  ℕ, ◌+◌, ◌-◌, ◌*◌, min, Bool, true, false, [], ◌∷◌, ◌++◌, ltb, leb, if◌then◌else◌, Bytes, length,
  take, drop,
}
use ulog_cpp.Messages.FileHeader.{FileHeaderS}
use ulog_cpp.Handler.{DataHandlerInterface, corruption_detected}

-- `Reader::State`.
pub data State : Type 0 where
  read_magic read_flag_bits read_header read_data invalid_data : State

-- The first `_partial_message_buffer_length` bytes of the buffer are `partial`.
pub record Reader : Type 0 where
  pub state : State
  pub partial : Bytes
  pub capacity : ℕ
  pub need_recovery : Bool
  pub corruption_reported : Bool
  pub total_num_read : ℕ
  pub file_header : FileHeaderS

abbrev pub buffer_size_init : ℕ
buffer_size_init = 2048

-- The constructor, on a little-endian machine.
abbrev pub initial : Reader
initial = record {
  state = read_magic;
  partial = [];
  capacity = buffer_size_init;
  need_recovery = false;
  corruption_reported = false;
  total_num_read = 0;
  file_header = record { magic = []; timestamp = 0 };
}

-- The reader and its handler, with what is left of the chunk: `data` and `length`.
pub record Config (S : Type 0) : Type 0 where
  pub reader : Reader
  pub handler : S
  pub input : Bytes

-- The size and the type of a header that lies at the start of at least three bytes.
abbrev pub msg_size_of : Bytes → ℕ
msg_size_of (lo ∷ hi ∷ _) = lo + 256 * hi
msg_size_of _ = 0

abbrev pub msg_type_of : Bytes → ℕ
msg_type_of (_ ∷ _ ∷ type ∷ _) = type
msg_type_of _ = 0

module _ {S : Type 0} where
  -- `data += n; length -= n; _total_num_read += n`.
  unfoldable pub consume : ℕ → Config S → Config S
  consume n c = record c {
    input = drop n c.input;
    reader = record c.reader { total_num_read = c.reader.total_num_read + n };
  }

  -- Copy `n` bytes of the chunk behind the partial message, and go on behind them.
  unfoldable pub append : ℕ → Config S → Config S
  unfolding consume
  append n c =
      consume n
        (record c { reader = record c.reader { partial = c.reader.partial ++ take n c.input } })

  -- How many bytes `appendToPartialBuffer` takes.
  unfoldable pub num_append : Config S → ℕ
  num_append c = min (length c.input) (c.reader.capacity - length c.reader.partial)

  -- `appendToPartialBuffer`, with the steps over the chunk that its callers make.
  unfoldable pub append_to_partial_buffer : Config S → Config S
  unfolding append num_append
  append_to_partial_buffer c = append (num_append c) c

  -- `realloc` where the bytes to append do not fit.
  unfoldable pub grow : ℕ → Config S → Config S
  grow n c =
      if ltb c.reader.capacity (length c.reader.partial + n)
      then record c { reader = record c.reader { capacity = length c.reader.partial + n } }
      else c

  -- The lambda `ensure_enough_data_in_partial_buffer`, but for its result.
  unfoldable pub ensure : ℕ → Config S → Config S
  unfolding append grow
  ensure required c =
      if ltb (length c.reader.partial) required
      then (let n = min (required - length c.reader.partial) (length c.input) in
          append n (grow n c))
      else c

  -- Its result.
  abbrev pub has_enough : ℕ → Config S → Bool
  has_enough required c = leb required (length c.reader.partial)

  -- The `memmove` that takes bytes off the front of the buffer.
  unfoldable pub remove_from_buffer : ℕ → Config S → Config S
  remove_from_buffer n c = record c {
    reader = record c.reader { partial = drop n c.reader.partial };
  }

-- `corruptionDetected`.
module _ (H : DataHandlerInterface) where
  open H use {S, error}

  unfoldable pub corruption : Config S → Config S
  corruption c = record c {
    handler =
        if c.reader.corruption_reported
        then c.handler
        else error corruption_detected true c.handler;
    reader = record c.reader { corruption_reported = true; need_recovery = true };
  }
