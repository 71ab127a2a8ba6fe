-- ===== src/Reader/Machine.antt =====
-- reader.cpp: `readChunk` and `tryToRecover`. Each calls the other at its end, so the two loops
-- are the phases of one machine, whose steps are the rounds of the loops. `run` makes a number of
-- steps that is bounded by the bytes at hand.
pub mod Weights
pub mod Termination
pub mod Rounds
pub mod Delivery
pub mod Chunks
pub mod File
use ulog_cpp.Prelude.{
  ℕ, zero, suc, ◌+◌, ◌*◌, Bool, true, false, not, ◌&&◌, ◌||◌, Option, none, some, List, [], ◌∷◌,
  ltb, leb, ◌==◌, if◌then◌else◌, Bytes, length, take, drop,
}
use ulog_cpp.RawMessages.{type_byte, ULogMessageType, msg_header_len}
use ulog_cpp.Handler.{Outcome, returned, thrown, DataHandlerInterface}
use ulog_cpp.Reader.State.{
  State, read_magic, read_flag_bits, invalid_data, Reader, Config, msg_size_of, msg_type_of,
  consume, num_append, append_to_partial_buffer, ensure, has_enough, remove_from_buffer,
}
use ulog_cpp.Reader.Header.{do_read_magic, do_read_flag_bits}
use ulog_cpp.Reader.Dispatch.{handle_message}

-- The rest of a chunk is read by the loop of `readChunk`, or by the loop of `tryToRecover`.
pub data Machine (S : Type 0) : Type 0 where
  reading : Config S → Machine S
  recovering : Config S → Machine S
  finished : Config S → Outcome → Machine S

pub is_empty : Bytes → Bool
is_empty [] = true
is_empty (_ ∷ _) = false

-- `kKnownMessageTypes`.
abbrev known_message_types : List ℕ
known_message_types =
    type_byte ULogMessageType.format
    ∷ type_byte ULogMessageType.data_msg
    ∷ type_byte ULogMessageType.info
    ∷ type_byte ULogMessageType.info_multiple
    ∷ type_byte ULogMessageType.parameter
    ∷ type_byte ULogMessageType.parameter_default
    ∷ type_byte ULogMessageType.add_logged_msg
    ∷ type_byte ULogMessageType.remove_logged_msg
    ∷ type_byte ULogMessageType.sync
    ∷ type_byte ULogMessageType.dropout
    ∷ type_byte ULogMessageType.logging
    ∷ type_byte ULogMessageType.logging_tagged
    ∷ type_byte ULogMessageType.flag_bits
    ∷ []

is_known : ℕ → List ℕ → Bool
is_known t [] = false
is_known t (k ∷ ks) = t == k || is_known t ks

-- The test of `tryToRecover` on a header.
unfoldable pub looks_sane : Bytes → Bool
unfolding is_known
looks_sane b =
    not (msg_size_of b == 0)
    && not (msg_type_of b == 0)
    && ltb (msg_size_of b) 10000
    && is_known (msg_type_of b) known_message_types

-- The search from `index` on, where the buffer goes on with the bytes: the place at which it ends,
-- and whether a header was found there.
unfoldable pub search_from : ℕ → Bytes → ℕ × Bool
search_from index [] = (index, false)
search_from index (x ∷ b) =
    let next = search_from (suc index) b in
    if not (ltb msg_header_len (length (x ∷ b)))
    then (index, false)
    else if looks_sane (x ∷ b)
    then (index, true)
    else next

-- The message at the front of the bytes, which hold at least its header.
abbrev pub message_of : Bytes → Bytes
message_of b = take (msg_size_of b + msg_header_len) b

-- The chunk holds a full message.
abbrev pub holds_message : Bytes → Bool
holds_message b = ltb msg_header_len (length b) && leb (msg_size_of b + msg_header_len) (length b)

module _ {S : Type 0} where
  -- The first branch of the loop's body: a message that has begun in the buffer.
  message_from_buffer : Config S → Config S × Option Bytes
  message_from_buffer c =
      let c' = ensure msg_header_len c in
      if has_enough msg_header_len c'
      then (let required = msg_size_of c'.reader.partial + msg_header_len in
          let c'' = ensure required c' in
          if has_enough required c''
          then (c'', some (message_of c''.reader.partial))
          else (c'', none))
      else (c', none)

  -- The second branch: a message in the chunk, or the start of one, which goes to the buffer.
  message_from_chunk : Config S → Config S × Option Bytes
  message_from_chunk c =
      if holds_message c.input
      then (consume (msg_size_of c.input + msg_header_len) c, some (message_of c.input))
      else (append_to_partial_buffer c, none)

  -- Enough steps for the bytes of the chunk and of the buffer.
  abbrev pub steps_for : Config S → ℕ
  steps_for c = 2 * (2 * length c.input + length c.reader.partial) + 3

module _ (H : DataHandlerInterface) where
  open H use {S}

  -- After the message: `clear_from_partial_message_buffer`, unless an exception goes on.
  after_buffer : Bytes → Config S × Outcome → Machine S
  after_buffer msg (c, returned) = reading (remove_from_buffer (length msg) c)
  after_buffer msg (c, thrown x) = finished c (thrown x)

  after_chunk : Config S × Outcome → Machine S
  after_chunk (c, returned) = reading c
  after_chunk (c, thrown x) = finished c (thrown x)

  from_buffer : Config S × Option Bytes → Machine S
  from_buffer (c, none) = reading c
  from_buffer (c, some msg) = after_buffer msg (handle_message H msg c)

  from_chunk : Config S × Option Bytes → Machine S
  from_chunk (c, none) = reading c
  from_chunk (c, some msg) = after_chunk (handle_message H msg c)

  -- A round of the loop of `readChunk`.
  unfoldable pub read_round : Config S → Machine S
  unfolding message_from_buffer message_from_chunk from_buffer from_chunk after_buffer after_chunk
  read_round c =
      if is_empty c.reader.partial
      then from_chunk (message_from_chunk c)
      else from_buffer (message_from_buffer c)

  -- The loop's test, and what stands behind the loop.
  unfoldable pub read_step : Config S → Machine S
  unfolding is_empty
  read_step c =
      if not (is_empty c.input) && not c.reader.need_recovery
      then read_round c
      else if c.reader.need_recovery
      then recovering c
      else finished c returned

  at_magic : State → Bool
  at_magic read_magic = true
  at_magic _ = false

  at_flag_bits : State → Bool
  at_flag_bits read_flag_bits = true
  at_flag_bits _ = false

  at_invalid : State → Bool
  at_invalid invalid_data = true
  at_invalid _ = false

  -- The start of `readChunk`, up to its loop.
  enter_magic : Config S → Config S
  enter_magic c = if at_magic c.reader.state then do_read_magic H c else c

  enter_flag_bits : Config S → Config S
  enter_flag_bits c =
      if at_flag_bits c.reader.state && not (is_empty c.input) then do_read_flag_bits H c else c

  unfoldable pub enter : Config S → Machine S
  unfolding at_magic at_flag_bits at_invalid enter_magic enter_flag_bits
  enter c =
      if at_invalid c.reader.state
      then finished c returned
      else reading (enter_flag_bits (enter_magic c))

  -- A header was found at the front of the buffer, or none was.
  recovered : Bool → Config S → Machine S
  recovered false c = recovering c
  recovered true c = enter (record c { reader = record c.reader { need_recovery = false } })

  -- A round of the loop of `tryToRecover`, and its end.
  unfoldable pub recover_step : Config S → Machine S
  unfolding recovered
  recover_step c =
      let c' = append_to_partial_buffer c in
      let start : ℕ = if num_append c == 0 then 1 else 0 in
      let (index, found) = search_from start (drop start c'.reader.partial) in
      if is_empty c.input
      then finished c returned
      else if leb msg_header_len (length c'.reader.partial)
      then recovered found (remove_from_buffer index c')
      else recovering c'

  unfoldable pub step : Machine S → Machine S
  step (reading c) = read_step c
  step (recovering c) = recover_step c
  step (finished c o) = finished c o

  -- So many steps.
  unfoldable pub run : ℕ → Machine S → Machine S
  run zero m = m
  run (suc n) m = run n (step m)

  -- `readChunk`.
  unfoldable pub read_chunk : Reader → S → Bytes → Machine S
  read_chunk r s chunk =
      let c : Config S = record { reader = r; handler = s; input = chunk } in
      run (steps_for c) (enter c)
