-- ===== src/Reader/Machine/Weights.antt =====
-- A round takes bytes off the chunk or off the buffer, and the buffer stays within its capacity.
use ulog_cpp.Prelude.{
  ℕ, suc, ◌+◌, ◌-◌, ◌*◌, ◌≤◌, ◌<◌, ◌≡◌, refl, true, false, arith, Bytes, some, [], ◌∷◌, length,
  take, leb→le, length-append, length-take, length-drop, min, Bool-cases, inl, inr,
}
use ulog_cpp.Handler.{DataHandlerInterface, Outcome, returned, thrown}
use ulog_cpp.RawMessages.{msg_header_len}
use ulog_cpp.Messages.FileHeader.{read_flag_bits_s}
use ulog_cpp.Reader.State.{
  Config, msg_size_of, consume, num_append, append_to_partial_buffer, ensure, has_enough,
  remove_from_buffer,
}
use ulog_cpp.Reader.Header.{do_read_magic, do_read_flag_bits}
use ulog_cpp.Reader.Bounds.{
  buffered, unread, IsValid, Ensured, ensure-Ensured, append_to_partial_buffer-IsValid,
}
use ulog_cpp.Reader.Dispatch.{handle_message}
use ulog_cpp.Reader.Dispatch.Keeps.{handle_message-Keeps}
use ulog_cpp.Reader.Machine.{
  Machine, reading, recovering, finished, is_empty, search_from, message_of, holds_message,
  message_from_buffer, message_from_chunk, after_buffer, after_chunk, from_buffer, from_chunk,
  read_round,
}

-- The search stays within the bytes that it is given.
pub search_from-le :
    (i : ℕ) (b : Bytes) → ((search_from i b).0 ≤ i + length b) × (i ≤ (search_from i b).0)
unfolding search_from
search_from-le i [] = (omega arith, omega arith)
search_from-le i (x ∷ b) = ground (arith, search_from-le (suc i) b)

is_empty_iff : (b : Bytes) → is_empty b ≡ true → b ≡ []
unfolding is_empty
is_empty_iff [] h = refl
is_empty_iff (x ∷ b) h = cc

pub is_empty_pos : (b : Bytes) → is_empty b ≡ false → 1 ≤ length b
unfolding is_empty
is_empty_pos [] h = cc
is_empty_pos (x ∷ b) h = omega arith

module _ {S : Type 0} where
  -- Each byte of the chunk is handled at most twice, each byte of the buffer at most once.
  unfoldable pub weight : Config S → ℕ
  weight c = 2 * unread c + buffered c

  -- What is left after a round: a valid buffer and less weight than `w`.
  abbrev pub Lighter : ℕ → Machine S → Type 0
  Lighter w (reading c) = IsValid c × (weight c < w)
  Lighter w (recovering c) = IsValid c × (weight c < w)
  Lighter w (finished c o) = IsValid c

  pub append_to_partial_buffer-buffered :
      (c : Config S) → IsValid c → buffered (append_to_partial_buffer c) ≡ buffered c + num_append c
  unfolding append_to_partial_buffer
  append_to_partial_buffer-buffered c v =
      let n = min (unread c) (c.reader.capacity - buffered c) in
      omega (arith, length-append {0} c.reader.partial (take n c.input), length-take {0} n c.input)

  pub append_to_partial_buffer-weight :
      (c : Config S) → IsValid c → weight (append_to_partial_buffer c) + num_append c ≡ weight c
  unfolding weight append_to_partial_buffer
  append_to_partial_buffer-weight c v =
      let n = min (unread c) (c.reader.capacity - buffered c) in
      ground (
        arith,
        length-append {0} c.reader.partial (take n c.input),
        length-take {0} n c.input,
        length-drop {0} n c.input,
      )

module _ (H : DataHandlerInterface) where
  open H use {S}

  after_buffer-Lighter :
      (msg : Bytes) (w : ℕ) (p : Config S × Outcome)
      → IsValid p.0
      → weight p.0 ≤ w
      → 1 ≤ length msg
      → length msg ≤ buffered p.0
      → Lighter w (after_buffer H msg p)
  unfolding after_buffer weight remove_from_buffer
  after_buffer-Lighter msg w (c, returned) v h pos fits =
      ground (arith, length-drop {0} (length msg) c.reader.partial)
  after_buffer-Lighter msg w (c, thrown x) v h pos fits = v

  after_chunk-Lighter :
      (w : ℕ) (p : Config S × Outcome) → IsValid p.0 → weight p.0 < w → Lighter w (after_chunk H p)
  unfolding after_chunk weight
  after_chunk-Lighter w (c, returned) v h = (v, h)
  after_chunk-Lighter w (c, thrown x) v h = v

  -- Handling a message in between changes neither.
  handled :
      (msg : Bytes) (c : Config S)
      → IsValid c
      → IsValid (handle_message H msg c).0
        × (weight (handle_message H msg c).0 ≡ weight c)
        × (buffered (handle_message H msg c).0 ≡ buffered c)
  unfolding weight
  handled msg c v =
      let k = handle_message-Keeps H msg c in ground (arith, k.input, k.partial, k.capacity)

  chunk_round-Lighter :
      (c : Config S)
      → IsValid c
      → c.reader.partial ≡ []
      → 1 ≤ unread c
      → Lighter (weight c) (from_chunk H (message_from_chunk c))
  unfolding message_from_chunk from_chunk weight consume num_append
  chunk_round-Lighter c v e pos = elim (Bool-cases (holds_message c.input)) [
    | inl h ↦ rw h (whole h)
    | inr h ↦ rw h (
      append_to_partial_buffer-IsValid c v,
      omega (arith, append_to_partial_buffer-weight c v, room),
    )
  ]
    where
      room : 1 ≤ num_append c
      room = ground (arith, v.room, pos, e)

      whole :
          holds_message c.input ≡ true
          → Lighter (weight c) (
              from_chunk H
                (consume (msg_size_of c.input + msg_header_len) c, some (message_of c.input)))
      whole h =
          let n = msg_size_of c.input + msg_header_len in
          let c' = consume n c in
          let (valid, same, _) =
            handled (message_of c.input) c' (record { within = v.within; room = v.room }) in
          after_chunk-Lighter (weight c) (handle_message H (message_of c.input) c') valid
            (ground (arith, h, same, length-drop {0} n c.input))

  buffer_round-Lighter :
      (c : Config S)
      → IsValid c
      → 1 ≤ unread c
      → Lighter (weight c) (from_buffer H (message_from_buffer c))
  unfolding message_from_buffer from_buffer weight
  buffer_round-Lighter c v pos = elim (Bool-cases (has_enough 3 c')) [
    | inl h ↦ rw h (elim (Bool-cases (has_enough required c'')) [
      | inl k ↦ rw k (whole k)
      | inr k ↦ rw k (second.valid, short k)
    ])
    | inr h ↦ rw h (first.valid, ground (arith, first.total, first.short, pos))
  ]
    where
      c' : Config S
      c' = ensure 3 c

      first : Ensured 3 c c'
      first = ensure-Ensured 3 c v

      required : ℕ
      required = msg_size_of c'.reader.partial + 3

      c'' : Config S
      c'' = ensure required c'

      second : Ensured required c' c''
      second = ensure-Ensured required c' first.valid

      short : has_enough required c'' ≡ false → weight c'' < weight c
      short k = ground (arith, k, first.total, first.moved, second.total, second.short)

      whole :
          has_enough required c'' ≡ true
          → Lighter (weight c) (from_buffer H (c'', some (message_of c''.reader.partial)))
      whole k =
          let msg = message_of c''.reader.partial in
          let (valid, same, held) = handled msg c'' second.valid in
          let taken = length-take {0} (msg_size_of c''.reader.partial + 3) c''.reader.partial in
          let full = leb→le required (buffered c'') k in
          after_buffer-Lighter msg (weight c) (handle_message H msg c'') valid
            (omega (arith, same, first.total, first.moved, second.total, second.moved))
            (omega (arith, taken, full)) (omega (arith, taken, held))

  pub read_round-Lighter :
      (c : Config S) → IsValid c → 1 ≤ unread c → Lighter (weight c) (read_round H c)
  unfolding read_round
  read_round-Lighter c v pos = elim (Bool-cases (is_empty c.reader.partial)) [
    | inl e ↦ rw e (chunk_round-Lighter c v (is_empty_iff c.reader.partial e) pos)
    | inr e ↦ rw e (buffer_round-Lighter c v pos)
  ]

  pub do_read_magic-le :
      (c : Config S)
      → IsValid c
      → IsValid (do_read_magic H c) × (weight (do_read_magic H c) ≤ weight c)
  unfolding do_read_magic weight consume
  do_read_magic-le c v = ground (arith, length-drop {0} 16 c.input)

  pub do_read_flag_bits-le :
      (c : Config S)
      → IsValid c
      → IsValid (do_read_flag_bits H c) × (weight (do_read_flag_bits H c) ≤ weight c)
  unfolding do_read_flag_bits weight consume
  do_read_flag_bits-le c v =
      ground (arith, length-drop {0} ((read_flag_bits_s c.input).msg_size + 3) c.input)
