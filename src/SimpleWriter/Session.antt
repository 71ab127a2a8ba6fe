-- ===== src/SimpleWriter/Session.antt =====
-- The calls behind the header: subscriptions, and the data that is written to them.
use ulog_cpp.Prelude.{
  ℕ, ◌+◌, ◌%◌, ◌^◌, ◌≤◌, ◌<◌, ◌≡◌, refl, arith, true, some, List, [], ◌∷◌, ◌++◌, Bytes, length,
  length-take, take, get_elem?, ltb-false,
}
use ulog_cpp.Exception.{ok}
use ulog_cpp.Messages.Logged.{Data, AddLoggedMessage}
use ulog_cpp.Messages.Logged.RoundTrip.{IsData, IsAddLogged}
use ulog_cpp.Handler.{data_msg, add_logged_message, returned}
use ulog_cpp.Reader.Frames.{IsMessage}
use ulog_cpp.Reader.Dispatch.{data_event}
use ulog_cpp.Writer.Events.{write_event-read_event}
use ulog_cpp.SimpleWriter.{
  SimpleWriter, find_format, forward, write_sized, add_subscription, write_data, write_add_logged,
}

-- The header is complete, for the object and for its writer.
pub record IsOpen (s : SimpleWriter) : Type 0 where
  pub complete : s.is_header_complete ≡ true
  pub writer_complete : s.writer.is_header_complete ≡ true

-- The state with these bytes written.
abbrev pub wrote : Bytes → SimpleWriter → SimpleWriter
wrote m s = record s { writer = record s.writer { output = s.writer.output ++ m } }

-- With the header complete, an id of 16 bits that stands for a size of 1 to 2^16 - 3, and at least
-- as many bytes as that size: `writeData` returns, and appends one message, from which the reader
-- makes the data with this id and the first bytes up to the size.
pub write_data-data_event :
    (id n : ℕ) (bytes : Bytes) (s : SimpleWriter)
    → IsOpen s
    → get_elem? s.subscriptions id ≡ some n
    → n ≤ length bytes
    → id < 2 ^ 16
    → 1 ≤ n
    → n + 2 < 2 ^ 16
    → (m : Bytes) × (write_data id bytes s ≡ (wrote m s, returned))
      × IsMessage m
      × (data_event m ≡ some (ok (data_msg (record { msg_id = id; payload = take n bytes }))))
unfolding write_data write_sized forward
write_data-data_event id n bytes s v h enough small pos fits =
    let size : length (take n bytes) ≡ n = omega (arith, length-take {0} n bytes) in
    let d : Data = record { msg_id = id; payload = take n bytes } in
    let ok_d : IsData d = record {
      id = small;
      not_empty = omega (arith, size);
      fits = omega (arith, size);
    } in
    let (m, e, f, r) = write_event-read_event (data_msg d) s.writer ok_d tt in
    (m, rw (v.complete, h, ltb-false (length bytes) n enough, e) refl, f, r)

get_last : (l : List ℕ) (x : ℕ) → get_elem? (l ++ x ∷ []) (length l) ≡ some x
get_last [] x = refl
get_last (y ∷ l) x = get_last l x

-- The state with these bytes written, and a subscription of size `n` behind the others.
abbrev pub subscribed : ℕ → Bytes → SimpleWriter → SimpleWriter
subscribed n m s = record (wrote m s) { subscriptions = s.subscriptions ++ n ∷ [] }

-- A subscription to a known format, with less than 2^16 subscriptions so far: the call returns the
-- next id, keeps the format's size under it, and appends one message, from which the reader makes
-- the same subscription.
pub write_add_logged-data_event :
    (name : Bytes) (multi_id n : ℕ) (s : SimpleWriter)
    → IsOpen s
    → find_format name s.formats ≡ some n
    → length s.subscriptions < 2 ^ 16
    → multi_id < 2 ^ 8
    → 1 ≤ length name
    → length name + 3 < 2 ^ 16
    → let id = length s.subscriptions in
      let a : AddLoggedMessage = record { multi_id = multi_id; msg_id = id; message_name = name } in
      (m : Bytes) × (write_add_logged name multi_id s ≡ (subscribed n m s, ok id))
      × IsMessage m
      × (data_event m ≡ some (ok (add_logged_message a)))
unfolding write_add_logged add_subscription forward
write_add_logged-data_event name multi_id n s v h few small pos fits =
    let id = length s.subscriptions in
    let a : AddLoggedMessage = record { multi_id = multi_id; msg_id = id; message_name = name } in
    let ok_a : IsAddLogged a = record {
      instance_id = small;
      id = few;
      not_empty = pos;
      fits = fits;
    } in
    let (m, e, f, r) =
      write_event-read_event (add_logged_message a) s.writer ok_a v.writer_complete in
    let same : id % 2 ^ 16 ≡ id = omega (arith, few) in (m, rw (v.complete, h, same, e) refl, f, r)

-- With the header complete, fewer than 2^16 subscriptions, and a format that is known with a size
-- of 1 to 2^16 - 3: `writeAddLoggedMessage` with an 8-bit instance and a name that fits returns the
-- next id, `writeData` with that id and at least as many bytes as the size returns, and the two
-- append one whole message each, from which the reader makes the subscription and the data without
-- the padding.
pub write_add_logged-write_data :
    (name : Bytes) (multi_id n : ℕ) (bytes : Bytes) (s : SimpleWriter)
    → IsOpen s
    → find_format name s.formats ≡ some n
    → length s.subscriptions < 2 ^ 16
    → multi_id < 2 ^ 8
    → 1 ≤ length name
    → length name + 3 < 2 ^ 16
    → n ≤ length bytes
    → 1 ≤ n
    → n + 2 < 2 ^ 16
    → let id = length s.subscriptions in
      let a : AddLoggedMessage = record { multi_id = multi_id; msg_id = id; message_name = name } in
      let d : Data = record { msg_id = id; payload = take n bytes } in
      (m m' : Bytes) × (write_add_logged name multi_id s ≡ (subscribed n m s, ok id))
      × (write_data id bytes (subscribed n m s) ≡ (wrote m' (subscribed n m s), returned))
      × IsMessage m
      × IsMessage m'
      × (data_event m ≡ some (ok (add_logged_message a)))
      × (data_event m' ≡ some (ok (data_msg d)))
write_add_logged-write_data name multi_id n bytes s v h few small pos fits enough pos_n fits_n =
    let (m, e, f, r) = write_add_logged-data_event name multi_id n s v h few small pos fits in
    let opened : IsOpen (subscribed n m s) = record {
      complete = v.complete;
      writer_complete = v.writer_complete;
    } in
    let (m', e', f', r') =
      write_data-data_event (length s.subscriptions) n bytes (subscribed n m s) opened
        (get_last s.subscriptions n) enough few pos_n fits_n in
    (m, m', e, e', f, f', r, r')
