-- ===== src/Reader/Bounds.antt =====
-- The partial message buffer never holds more than its capacity, and what each part of a round
-- does to the bytes at hand.
use ulog_cpp.Prelude.{
  ℕ, ◌+◌, ◌-◌, ◌≡◌, ◌≤◌, ◌<◌, min, arith, length, take, length-append, length-take, length-drop,
}
use ulog_cpp.Reader.State.{Config, append, append_to_partial_buffer, ensure}

module _ {S : Type 0} where
  abbrev pub buffered : Config S → ℕ
  buffered c = length c.reader.partial

  abbrev pub unread : Config S → ℕ
  unread c = length c.input

  -- The buffer holds at most its capacity, which is never below the initial one.
  pub record IsValid (c : Config S) : Type 0 where
    pub within : buffered c ≤ c.reader.capacity
    pub room : 2048 ≤ c.reader.capacity

  -- What `ensure` leaves: no byte is lost, and if the buffer is still short the chunk is used up.
  pub record Ensured (required : ℕ) (c c' : Config S) : Type 0 where
    pub total : unread c' + buffered c' ≡ unread c + buffered c
    pub moved : unread c' ≤ unread c
    pub short : buffered c' < required → unread c' ≡ 0
    pub valid : IsValid c'
    pub recovery : c'.reader.need_recovery ≡ c.reader.need_recovery

  length-append_bytes :
      (n : ℕ) (c : Config S)
      → n ≤ unread c
      → (buffered (append n c) ≡ buffered c + n) × (unread (append n c) ≡ unread c - n)
  unfolding append
  length-append_bytes n c h = (
    omega (arith, length-append {0} c.reader.partial (take n c.input), length-take {0} n c.input),
    length-drop n c.input,
  )

  pub ensure-Ensured :
      (required : ℕ) (c : Config S) → IsValid c → Ensured required c (ensure required c)
  unfolding ensure
  ensure-Ensured required c v =
      let n = min (required - buffered c) (unread c) in
      ground (
        arith,
        length-append {0} c.reader.partial (take n c.input),
        length-take {0} n c.input,
        length-drop {0} n c.input,
      )

  -- What `appendToPartialBuffer` leaves.
  pub append_to_partial_buffer-IsValid :
      (c : Config S) → IsValid c → IsValid (append_to_partial_buffer c)
  unfolding append_to_partial_buffer
  append_to_partial_buffer-IsValid c v =
      let n = min (unread c) (c.reader.capacity - buffered c) in
      ground (
        arith,
        length-append {0} c.reader.partial (take n c.input),
        length-take {0} n c.input,
        length-drop {0} n c.input,
      )

  -- The parts of the reader that handling a message leaves alone.
  pub record Keeps (c c' : Config S) : Type 0 where
    pub input : c'.input ≡ c.input
    pub partial : c'.reader.partial ≡ c.reader.partial
    pub capacity : c'.reader.capacity ≡ c.reader.capacity
    pub total : c'.reader.total_num_read ≡ c.reader.total_num_read
