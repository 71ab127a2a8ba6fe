-- ===== src/Reader/Machine/File.antt =====
-- A whole file: what `FileHeader::serialize` wrote, and messages behind it.
use ulog_cpp.Prelude.{
  ℕ, ◌+◌, ◌≤◌, ◌≡◌, refl, sym, ap, ◌∙◌, arith, true, false, List, [], ◌∷◌, ◌++◌, append_assoc,
  Bytes, length,
}
use mathlib.Core.Path.{subst}
use ulog_cpp.Exception.{ok}
use ulog_cpp.Memory.{le_bytes}
use ulog_cpp.Messages.FileHeader.{FileHeader, serialize_header, header_bytes, flag_bits_bytes}
use ulog_cpp.Handler.{DataHandlerInterface, returned}
use ulog_cpp.Reader.State.{State, Config, initial, read_magic}
use ulog_cpp.Reader.Session.{place}
use ulog_cpp.Reader.Frames.{Framed, IsIncomplete}
use ulog_cpp.Reader.Header.RoundTrip.{
  IsFileHeader, behind_magic, behind_header, do_read_magic-header_bytes,
  do_read_flag_bits-flag_bits_bytes, serialize_header-IsFileHeader,
}
use ulog_cpp.Reader.Machine.{
  reading, finished, is_empty, at_magic, at_flag_bits, at_invalid, enter_magic, enter_flag_bits,
  enter, run, read_chunk, steps_for,
}
use ulog_cpp.Reader.Machine.Termination.{read_chunk-Stops}
use ulog_cpp.Reader.Machine.Delivery.{Delivered, IsReady, session, frames-Delivered, run_unique}
use ulog_cpp.Reader.Machine.Chunks.{
  joined, feed, read_chunks, Leaves, split-Framed, Framed-left, split-Delivered, Delivered-place,
  Delivered-ready, read_chunks-delivers,
}

-- The flags are there behind the magic.
flags_there :
    (h : FileHeader) (rest : Bytes) → is_empty (flag_bits_bytes h.flag_bits ++ rest) ≡ false
unfolding is_empty flag_bits_bytes le_bytes
flags_there h rest = refl

module _ (H : DataHandlerInterface) where
  open H use {S, file_header}

  magic_state : (st : State) → st ≡ read_magic → (at_magic H st ≡ true) × (at_invalid H st ≡ false)
  unfolding at_magic at_invalid
  magic_state st e = rw e (refl, refl)

  enter_magic-header :
      (h : FileHeader) (rest : Bytes) (c : Config S)
      → IsFileHeader h
      → c.reader.state ≡ read_magic
      → c.input ≡ header_bytes h.header ++ (flag_bits_bytes h.flag_bits ++ rest)
      → enter_magic H c ≡ behind_magic H h rest c
  unfolding enter_magic
  enter_magic-header h rest c v st e =
      let (magic, _) = magic_state c.reader.state st in
      rw magic (do_read_magic-header_bytes H h rest c v e)

  enter_flag_bits-header :
      (h : FileHeader) (rest : Bytes) (c : Config S)
      → IsFileHeader h
      → enter_flag_bits H (behind_magic H h rest c) ≡ behind_header H h rest c
  unfolding enter_flag_bits at_flag_bits
  enter_flag_bits-header h rest c v =
      rw (flags_there h rest) (do_read_flag_bits-flag_bits_bytes H h rest c v)

  enter-header :
      (h : FileHeader) (rest : Bytes) (c : Config S)
      → IsFileHeader h
      → c.reader.state ≡ read_magic
      → c.input ≡ header_bytes h.header ++ (flag_bits_bytes h.flag_bits ++ rest)
      → enter H c ≡ reading (behind_header H h rest c)
  unfolding enter
  enter-header h rest c v st e =
      let (_, valid) = magic_state c.reader.state st in
      let magic = enter_magic-header h rest c v st e in
      rw (valid, magic, enter_flag_bits-header h rest c v) refl

  -- The session of a new reader behind the header, with nothing in the buffer and the chunk.
  abbrev pub after_header : FileHeader → S → Config S
  after_header h s = behind_header H h [] (session H initial s)

  short_nothing : IsIncomplete []
  short_nothing = omega arith

  -- A chunk that begins with a whole header, and the messages behind it.
  read_chunk-header :
      (h : FileHeader) (s : S) (chunk : Bytes) {ms : List Bytes} {left : Bytes} {d' : Config S}
      → IsFileHeader h
      → Framed chunk ms left
      → Delivered H (after_header h s) ms d'
      → (k : ℕ) × (t : ℕ) × (read_chunk H initial s
            (header_bytes h.header ++ (flag_bits_bytes h.flag_bits ++ chunk))
          ≡ finished (place left k t [] d') returned)
        × (2048 ≤ k)
        × (length left ≤ k)
  read_chunk-header h s chunk {left = left} {d' = d'} v f ds =
      let file = header_bytes h.header ++ (flag_bits_bytes h.flag_bits ++ chunk) in
      let c : Config S = record { reader = initial; handler = s; input = file } in
      let entered = enter-header h chunk c v refl refl in
      let (k, t, room, fits, steps) =
        frames-Delivered H [] chunk 2048 (0 + 16 + 43) (after_header h s) d' f refl short_nothing
          refl (omega arith) (omega arith) ds in
      let (c1, o1, e1, _) = read_chunk-Stops H initial s file (omega arith) (omega arith) in
      let e2 : run H (steps_for c) (reading (behind_header H h chunk c)) ≡ finished c1 o1 =
        unfold read_chunk in ap (run H (steps_for c)) (sym entered) ∙ e1 in
      (
        k,
        t,
        e1 ∙ run_unique H (steps_for c) c1 (place left k t [] d') o1 returned steps refl e2,
        room,
        fits,
      )

  -- If a header is one that the reader knows, with no appended data, and a handler takes the
  -- messages of a stream in order with no exception and no corruption, then a new reader that is
  -- handed what `FileHeader::serialize` writes and the stream behind it, in chunks of which the
  -- first holds the whole header, hands the header to the handler, has the effect of the messages
  -- in order, and keeps what is behind the last of them.
  pub read_chunks-serialize_header :
      (h : FileHeader) (s : S) (bytes chunk : Bytes) (chunks : List Bytes) {ms : List Bytes}
      {left : Bytes} {d' : Config S}
      → IsFileHeader h
      → serialize_header h ≡ ok bytes
      → Framed (chunk ++ joined chunks) ms left
      → Delivered H (after_header h s) ms d'
      → Leaves H (read_chunks H initial s ((bytes ++ chunk) ∷ chunks)) left d'
  unfolding read_chunks feed
  read_chunks-serialize_header h s bytes chunk chunks {ms} {left} {d'} v e f ds =
      let (ms1, ms2, mid, eq, f1, f2) = split-Framed chunk (joined chunks) f refl in
      let (d1, h1, h2) =
        split-Delivered H ms1 ms2 (subst (λ l. Delivered H (after_header h s) l d') eq ds) in
      let (k, t, ran, room, fits) = read_chunk-header h s chunk v f1 h1 in
      let (in_session, clean) = Delivered-ready H h1 tt refl in
      let r' = (place mid k t [] d1).reader in
      let ready : IsReady H r' = record {
        in_session = in_session;
        clean = clean;
        short = Framed-left H f1;
        within = fits;
        room = room;
      } in
      let (k', t', rest_ran) =
        read_chunks-delivers H chunks r' d1.handler ready f2 (Delivered-place H mid k t h2) in
      let same : bytes ≡ header_bytes h.header ++ flag_bits_bytes h.flag_bits =
        let t : ok bytes ≡ ok (header_bytes h.header ++ flag_bits_bytes h.flag_bits) =
          sym e ∙ serialize_header-IsFileHeader h v in
        cc in
      let file : bytes ++ chunk ≡ header_bytes h.header ++ (flag_bits_bytes h.flag_bits ++ chunk) =
        ap (λ b. b ++ chunk) same
        ∙ append_assoc (header_bytes h.header) (flag_bits_bytes h.flag_bits) chunk in
      (k', t', rw file (ap (feed H chunks) ran ∙ rest_ran))
