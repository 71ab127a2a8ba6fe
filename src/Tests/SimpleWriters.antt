-- ===== src/Tests/SimpleWriters.antt =====
-- The theorems on `SimpleWriter` at concrete inputs.
use ulog_cpp.Prelude.{◌≡◌, ◌↔◌, refl, arith, true, some, List, [], ◌∷◌, Bytes, bytes_eq, codes}
use ulog_cpp.Exception.{ok}
use ulog_cpp.Field.{Field, make_field, minus_one, type_of_name, find_basic_type}
use ulog_cpp.Handler.{data_msg, add_logged_message, returned}
use ulog_cpp.Reader.Frames.{IsMessage}
use ulog_cpp.Reader.Dispatch.{data_event}
use ulog_cpp.SimpleWriter.{SimpleWriter, find_format, write_add_logged, write_data, add_sizes}
use ulog_cpp.SimpleWriter.Session.{
  IsOpen, subscribed, wrote, write_add_logged-write_data, write_data-data_event,
}
use ulog_cpp.SimpleWriter.Order.{data_call, after, InSync, after-InSync}
use ulog_cpp.SimpleWriter.Layout.{Aligned, end_of, span_of, num_elements, add_sizes_iff}
use ulog_cpp.Tests.{open_writer, sample_field}

abbrev open_simple : SimpleWriter
open_simple = record {
  writer = open_writer;
  is_header_complete = true;
  formats = (codes "a", 2) ∷ [];
  subscriptions = 4 ∷ [];
}

open_simple-IsOpen : IsOpen open_simple
open_simple-IsOpen = record { complete = refl; writer_complete = refl }

a_known : find_format (codes "a") open_simple.formats ≡ some 2
unfolding find_format bytes_eq
a_known = refl

write_data-data_event_example :
    (m : Bytes) × (write_data 0 (1 ∷ 2 ∷ 3 ∷ 4 ∷ 5 ∷ []) open_simple
      ≡ (wrote m open_simple, returned))
    × IsMessage m
    × (data_event m ≡ some (ok (data_msg (record { msg_id = 0; payload = 1 ∷ 2 ∷ 3 ∷ 4 ∷ [] }))))
write_data-data_event_example =
    write_data-data_event 0 4 (1 ∷ 2 ∷ 3 ∷ 4 ∷ 5 ∷ []) open_simple open_simple-IsOpen refl
      (omega arith) (omega arith) (omega arith) (omega arith)

write_add_logged-write_data_example :
    (m m' : Bytes) × (write_add_logged (codes "a") 0 open_simple
      ≡ (subscribed 2 m open_simple, ok 1))
    × (write_data 1 (7 ∷ 8 ∷ 9 ∷ []) (subscribed 2 m open_simple)
        ≡ (wrote m' (subscribed 2 m open_simple), returned))
    × IsMessage m
    × IsMessage m'
    × (data_event m
        ≡ some (
            ok
              (add_logged_message (record { multi_id = 0; msg_id = 1; message_name = codes "a" }))))
    × (data_event m' ≡ some (ok (data_msg (record { msg_id = 1; payload = 7 ∷ 8 ∷ [] }))))
write_add_logged-write_data_example =
    write_add_logged-write_data (codes "a") 0 2 (7 ∷ 8 ∷ 9 ∷ []) open_simple open_simple-IsOpen
      a_known (omega arith) (omega arith) (omega arith) (omega arith) (omega arith) (omega arith)
      (omega arith)

-- 'uint64_t timestamp; float[3] x'
abbrev sample_fields : List Field
sample_fields = make_field (codes "uint64_t") (codes "timestamp") minus_one ∷ sample_field ∷ []

sample_end : end_of 0 sample_fields ≡ 20
unfolding end_of span_of num_elements make_field type_of_name find_basic_type bytes_eq
sample_end = refl

add_sizes_iff_example :
    (add_sizes 0 sample_fields ≡ ok 20) ↔ (Aligned 0 sample_fields × (20 ≡ end_of 0 sample_fields))
add_sizes_iff_example = add_sizes_iff sample_fields 20 (rw sample_end (omega arith))

after-InSync_example : InSync (after (data_call 0 (1 ∷ 2 ∷ 3 ∷ 4 ∷ [])) open_simple)
after-InSync_example = after-InSync (data_call 0 (1 ∷ 2 ∷ 3 ∷ 4 ∷ [])) open_simple refl
