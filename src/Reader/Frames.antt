-- ===== src/Reader/Frames.antt =====
-- The messages of a stream of bytes: the specification of the reader's framing.
use ulog_cpp.Prelude.{
  ◌+◌, ◌≤◌, ◌<◌, ◌≡◌, ◌≢◌, refl, sym, ◌⊎◌, inl, inr, List, [], ◌∷◌, ◌++◌, arith, Bytes, length,
}
use ulog_cpp.Reader.State.{msg_size_of, msg_type_of}

-- A message as it lies in a file: a header with a size and a type that are not zero, and as many
-- bytes behind it as the size says.
pub record IsMessage (m : Bytes) : Type 0 where
  pub whole : length m ≡ msg_size_of m + 3
  pub size : msg_size_of m ≢ 0
  pub type : msg_type_of m ≢ 0

-- Less than a message: no whole header, or fewer bytes than its size says.
abbrev pub IsIncomplete : Bytes → Type 0
IsIncomplete b = length b < msg_size_of b + 3

-- A stream is made of whole messages and the start of one more.
pub data Framed : Bytes → List Bytes → Bytes → Type 0 where
  rest : {b : Bytes} → IsIncomplete b → Framed b [] b
  message :
      {b q r : Bytes} (m : Bytes) {ms : List Bytes}
      → IsMessage m
      → b ≡ m ++ q
      → Framed q ms r
      → Framed b (m ∷ ms) r

-- The header of a stream is that of its first bytes.
pub msg_size_of-append : (a b : Bytes) → 2 ≤ length a → msg_size_of (a ++ b) ≡ msg_size_of a
msg_size_of-append [] b h = absurd (omega arith)
msg_size_of-append (x ∷ []) b h = absurd (omega arith)
msg_size_of-append (x ∷ y ∷ a) b h = refl

-- Two cuts of one stream at the same length are the same.
pub append_injective : (a b c d : Bytes) → a ++ b ≡ c ++ d → length a ≡ length c → (a ≡ c) × (b ≡ d)
append_injective [] b [] d e h = (refl, e)
append_injective [] b (y ∷ c) d e h = absurd (omega arith)
append_injective (x ∷ a) b [] d e h = absurd (omega arith)
append_injective (x ∷ a) b (y ∷ c) d e h =
    let (t, u) = append_injective a b c d (cc) (omega arith) in (cc, u)

-- The start of a stream that is cut within its first message is incomplete, and one that is cut
-- behind it holds the message.
pub split_append :
    (a b m q : Bytes)
    → a ++ b ≡ m ++ q
    → ((x : Bytes) × (a ≡ m ++ x) × (q ≡ x ++ b)) ⊎ (length a < length m)
split_append a b [] q e = inl (a, refl, sym e)
split_append [] b (y ∷ m) q e = inr (omega arith)
split_append (x ∷ a) b (y ∷ m) q e = elim (split_append a b m q (cc)) [
  | inl (z, s, t) ↦ inl (z, cc, t)
  | inr h ↦ inr (omega arith)
]
