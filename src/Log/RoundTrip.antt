-- ===== src/Log/RoundTrip.antt =====
-- What the writer writes of a log is a file from which the reader makes the log again.
use ulog_cpp.Prelude.{◌≡◌, refl, sym, ap, ◌∙◌, false, List, [], ◌∷◌, ◌++◌, Bytes}
use mathlib.Core.Path.{subst}
use ulog_cpp.Exception.{ok}
use ulog_cpp.Messages.FileHeader.{FileHeader, serialize_header}
use ulog_cpp.Handler.{Event, header_complete, Outcome, returned, DataHandlerInterface}
use ulog_cpp.Reader.State.{initial}
use ulog_cpp.Reader.Header.RoundTrip.{IsFileHeader}
use ulog_cpp.Reader.Frames.{append_injective, Framed}
use ulog_cpp.Reader.Machine.Chunks.{joined, read_chunks, Leaves}
use ulog_cpp.Reader.Machine.File.{after_header, read_chunks-serialize_header}
use ulog_cpp.Writer.{Writer, new_writer, writer, write_file_header, header_to}
use ulog_cpp.Writer.Events.{Writable}
use ulog_cpp.Log.{calls}
use ulog_cpp.Log.Messages.{IsStart}
use ulog_cpp.Log.Written.{IsHeaderPart, IsDataPart, with_state, closed, in_data, log-IsWritten}

module _ (H : DataHandlerInterface) where
  open H use {S}

  -- A log is a header, the events of its header section, the end of the header, a first message of
  -- the data section, which is a subscription or a text, and the events of the data section. If the
  -- reader knows the header, the values of the events are within the bounds of their messages, and
  -- a handler takes the header and the log with no exception, then a new writer takes them with
  -- none, and what it writes, handed to a new reader in chunks of which the first holds the whole
  -- file header, leaves that handler in the state that the calls themselves leave it in, the reader
  -- in the data section, and nothing behind the last message.
  pub read_chunks-calls :
      (h : FileHeader) (hs : List Event) (e : Event) (ds : List Event) (s s' : S) (w : Writer)
      (o : Outcome) (head chunk : Bytes) (chunks : List Bytes)
      → IsFileHeader h
      → IsHeaderPart hs
      → Writable e
      → IsStart e
      → IsDataPart ds
      → calls H (hs ++ header_complete ∷ e ∷ ds) (H.file_header h s) ≡ (s', returned)
      → calls writer (hs ++ header_complete ∷ e ∷ ds) (write_file_header h new_writer) ≡ (w, o)
      → serialize_header h ≡ ok head
      → w.output ≡ head ++ (chunk ++ joined chunks)
      → (o ≡ returned)
        × Leaves H
            (read_chunks H initial s ((head ++ chunk) ∷ chunks))
            []
            (in_data H (after_header H h s) s')
  unfolding write_file_header header_to
  read_chunks-calls h hs e ds s s' w o head chunk chunks hv hsv v k vs called wrote serialized cut =
      let (bytes, ms, took, framed, dl) =
        log-IsWritten H hs e ds (with_state false head) (after_header H h s) s' hsv v k vs refl refl
          refl called in
      let handed : write_file_header h new_writer ≡ with_state false head = rw serialized refl in
      let run : (w, o) ≡ (closed (with_state false head) bytes, returned) =
        sym wrote ∙ ap (calls writer (hs ++ header_complete ∷ e ∷ ds)) handed ∙ took in
      let all : head ++ bytes ≡ head ++ (chunk ++ joined chunks) =
        ap (λ r. r.0.output) (sym run) ∙ cut in
      let (_, behind) = append_injective head bytes head (chunk ++ joined chunks) all refl in
      (
        ap (λ r. r.1) run,
        read_chunks-serialize_header H h s head chunk chunks hv serialized
            (subst (λ b. Framed b ms []) behind framed) dl,
      )
