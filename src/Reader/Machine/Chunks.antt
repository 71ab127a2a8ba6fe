-- ===== src/Reader/Machine/Chunks.antt =====
-- A stream that reaches the reader in several chunks, as the loop around `readChunk` in a program
-- that reads a file hands it over.
use ulog_cpp.Prelude.{
  ℕ, false, ◌<◌, ◌≡◌, refl, sym, ap, ◌∙◌, arith, Bytes, List, [], ◌∷◌, ◌++◌, append-nil,
  append_assoc, length, length-append, inl, inr,
}
use mathlib.Core.Path.{subst}
use ulog_cpp.Handler.{DataHandlerInterface, returned, thrown}
use ulog_cpp.Reader.State.{Reader, Config, msg_size_of}
use ulog_cpp.Reader.Session.{place}
use ulog_cpp.Reader.Frames.{
  IsMessage, IsIncomplete, Framed, rest, message, msg_size_of-append, split_append,
}
use ulog_cpp.Reader.Dispatch.Keeps.{InSession, handle_message-InSession}
use ulog_cpp.Reader.Dispatch.Frame.{handle_message-place}
use ulog_cpp.Reader.Machine.{Machine, reading, recovering, finished, read_chunk}
use ulog_cpp.Reader.Machine.Delivery.{
  Delivered, all_delivered, delivered, IsReady, session, read_chunk-delivers,
}

-- The chunks one behind the other.
unfoldable pub joined : List Bytes → Bytes
joined [] = []
joined (c ∷ cs) = c ++ joined cs

-- The start of an incomplete message is incomplete.
IsIncomplete-start : (a z : Bytes) → IsIncomplete (a ++ z) → IsIncomplete a
IsIncomplete-start [] z h = omega arith
IsIncomplete-start (x ∷ []) z h = omega arith
IsIncomplete-start (x ∷ y ∷ a) z h =
    omega (arith, msg_size_of-append (x ∷ y ∷ a) z (omega arith), length-append {0} (x ∷ y ∷ a) z)

-- So is a start that is shorter than a message.
short_start :
    (a z m q : Bytes) → IsMessage m → a ++ z ≡ m ++ q → length a < length m → IsIncomplete a
short_start [] z m q v e h = omega arith
short_start (x ∷ []) z m q v e h = omega arith
short_start (x ∷ y ∷ a) z m q v e h =
    let same : msg_size_of (x ∷ y ∷ a) ≡ msg_size_of m =
      sym (msg_size_of-append (x ∷ y ∷ a) z (omega arith))
      ∙ ap msg_size_of e
      ∙ msg_size_of-append m q (omega arith) in
    omega (arith, same, v.whole)

-- The messages of a stream that end in its first part, and those that end behind it.
pub split-Framed :
    {b left : Bytes} {ms : List Bytes} (a z : Bytes)
    → Framed b ms left
    → b ≡ a ++ z
    → (ms1 : List Bytes) × (ms2 : List Bytes) × (mid : Bytes) × (ms ≡ ms1 ++ ms2)
      × Framed a ms1 mid
      × Framed (mid ++ z) ms2 left
split-Framed a z (rest {b} h) e =
    let short : IsIncomplete (a ++ z) = rw (← e) h in
    ([], [], a, refl, rest (IsIncomplete-start a z short), subst (λ x. Framed x [] b) e (rest h))
split-Framed a z (message {b} {q} {r} m {ms} v s f) e = elim (split_append a z m q (sym e ∙ s)) [
  | inl (x, s1, s2) ↦
      let (ms1, ms2, mid, t, f1, f2) = split-Framed x z f s2 in
      (m ∷ ms1, ms2, mid, ap (λ l. m ∷ l) t, message m v s1 f1, f2)
  | inr h ↦
      ([], m ∷ ms, a, refl, rest (short_start a z m q v (sym e ∙ s) h), message m v (sym e ∙ s) f)
]

-- Less than a message holds none.
Framed-short :
    {b left : Bytes} {ms : List Bytes} → Framed b ms left → IsIncomplete b → (ms ≡ []) × (left ≡ b)
Framed-short (rest h) short = (refl, refl)
Framed-short (message {b} {q} m v s f) short =
    let lies : IsIncomplete (m ++ q) = rw (← s) short in
    absurd (
      omega (
        arith,
        v.whole,
        msg_size_of-append m q (omega (arith, v.whole)),
        length-append {0} m q,
        lies,
      ))

module _ (H : DataHandlerInterface) where
  open H use {S}

  -- `readChunk` on each chunk in turn, up to an exception.
  unfoldable pub feed : List Bytes → Machine S → Machine S
  feed [] m = m
  feed (c ∷ cs) (finished d returned) = feed cs (read_chunk H d.reader d.handler c)
  feed (c ∷ cs) (finished d (thrown x)) = finished d (thrown x)
  feed (c ∷ cs) (reading d) = reading d
  feed (c ∷ cs) (recovering d) = recovering d

  unfoldable pub read_chunks : Reader → S → List Bytes → Machine S
  read_chunks r s cs = feed cs (finished (session H r s) returned)

  pub split-Delivered :
      (ms1 ms2 : List Bytes) {d d' : Config S}
      → Delivered H d (ms1 ++ ms2) d'
      → (d1 : Config S) × Delivered H d ms1 d1 × Delivered H d1 ms2 d'
  split-Delivered [] ms2 {d} h = (d, all_delivered, h)
  split-Delivered (m ∷ ms1) ms2 (delivered e clean h) =
      let (d1, h1, h2) = split-Delivered ms1 ms2 h in (d1, delivered e clean h1, h2)

  -- What is delivered does not depend on the buffer and the chunk.
  pub Delivered-place :
      {d d' : Config S} {ms : List Bytes} (p : Bytes) (k t : ℕ)
      → Delivered H d ms d'
      → Delivered H (place p k t [] d) ms (place p k t [] d')
  Delivered-place p k t all_delivered = all_delivered
  Delivered-place p k t (delivered {d} {m = m} e clean h) =
      delivered (handle_message-place H p k t [] m d ∙ rw e refl) clean (Delivered-place p k t h)

  -- The session stays behind the file header, with no corruption.
  pub Delivered-ready :
      {d d' : Config S} {ms : List Bytes}
      → Delivered H d ms d'
      → InSession d.reader.state
      → d.reader.need_recovery ≡ false
      → InSession d'.reader.state × (d'.reader.need_recovery ≡ false)
  Delivered-ready all_delivered s c = (s, c)
  Delivered-ready (delivered {d = d} {m = m} e clean h) s c =
      Delivered-ready h
        (subst (λ p. InSession p.0.reader.state) e (handle_message-InSession H m d s)) clean

  Delivered-nothing : {d d' : Config S} {ms : List Bytes} → Delivered H d ms d' → ms ≡ [] → d ≡ d'
  Delivered-nothing all_delivered e = refl
  Delivered-nothing (delivered e clean h) n = cc

  pub Framed-left : {b left : Bytes} {ms : List Bytes} → Framed b ms left → IsIncomplete left
  Framed-left (rest h) = h
  Framed-left (message m v s f) = Framed-left f

  -- The result of a stream: the messages' effect, with `left` in the buffer.
  abbrev pub Leaves : Machine S → Bytes → Config S → Type 0
  Leaves m left d' = (k : ℕ) × (t : ℕ) × (m ≡ finished (place left k t [] d') returned)

  -- For any handler, from a reader behind the file header that holds less than a message and has no
  -- corruption: a stream of messages that the handler takes in order with no exception and no
  -- corruption, followed by less than a message, has the effect of these messages in order, and
  -- leaves the bytes behind the last of them in the buffer, in whatever chunks and cut at whatever
  -- places it comes.
  pub read_chunks-delivers :
      (chunks : List Bytes) (r : Reader) (s : S) {ms : List Bytes} {left : Bytes} {d' : Config S}
      → IsReady H r
      → Framed (r.partial ++ joined chunks) ms left
      → Delivered H (session H r s) ms d'
      → Leaves (read_chunks r s chunks) left d'
  unfolding read_chunks feed joined
  read_chunks-delivers [] r s {left = left} v f ds =
      let (none_left, same) = Framed-short f (rw append-nil v.short) in
      let buffer : left ≡ r.partial = same ∙ append-nil r.partial in
      (
        r.capacity,
        r.total_num_read,
        rw buffer (
            ap (λ d. finished (place r.partial r.capacity r.total_num_read [] d) returned)
              (Delivered-nothing ds none_left)),
      )
  read_chunks-delivers (c ∷ cs) r s {ms} {left} {d'} v f ds =
      let (ms1, ms2, mid, e, f1, f2) =
        split-Framed (r.partial ++ c) (joined cs) f (sym (append_assoc r.partial c (joined cs))) in
      let (d1, h1, h2) =
        split-Delivered ms1 ms2 (subst (λ l. Delivered H (session H r s) l d') e ds) in
      let (k, t, ran, room, fits) = read_chunk-delivers H r s c v f1 h1 in
      let (in_session, clean) = Delivered-ready h1 v.in_session v.clean in
      let r' = (place mid k t [] d1).reader in
      let ready : IsReady H r' = record {
        in_session = in_session;
        clean = clean;
        short = Framed-left f1;
        within = fits;
        room = room;
      } in
      let (k', t', rest_ran) =
        read_chunks-delivers cs r' d1.handler ready f2 (Delivered-place mid k t h2) in
      (k', t', ap (feed cs) ran ∙ rest_ran)
