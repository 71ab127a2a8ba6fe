-- ===== src/Messages/Logging/RoundTrip.antt =====
-- What `Logging::serialize` writes is what its constructor reads.
use ulog_cpp.Prelude.{
  ℕ, ◌+◌, ◌-◌, ◌%◌, ◌^◌, ◌≤◌, ◌<◌, ◌≡◌, refl, Bool, true, false, [], ◌++◌, append-nil, append_assoc,
  ltb-false, arith, Bytes, length, length-append,
}
use ulog_cpp.Exception.{ok, ◌>>=◌}
use ulog_cpp.Memory.{le_bytes, length-le_bytes}
use ulog_cpp.RawMessages.{
  ULogMessageType, header_msg_size_at, exceeds_u16-false, read_le_behind, read_bytes_behind,
}
use ulog_cpp.Messages.Logging.{
  Level, emergency, alert, critical, error, warning, notice, info, debug, level_byte, level_of_byte,
  Logging, parse_logging, serialize_logging, serialize_tagged, serialize_untagged,
}

pub level_of_byte-level_byte : (l : Level) → level_of_byte (level_byte l) ≡ l
unfolding level_of_byte
level_of_byte-level_byte emergency = refl
level_of_byte-level_byte alert = refl
level_of_byte-level_byte critical = refl
level_of_byte-level_byte error = refl
level_of_byte-level_byte warning = refl
level_of_byte-level_byte notice = refl
level_of_byte-level_byte info = refl
level_of_byte-level_byte debug = refl

level_byte-lt : (l : Level) → level_byte l < 256
level_byte-lt emergency = omega arith
level_byte-lt _ = omega arith

-- The bytes that a message of this class holds beside its text.
abbrev pub fixed_size : Bool → ℕ
fixed_size true = 11
fixed_size false = 9

-- A log line with a 64-bit time, a 16-bit tag, which is 0 where it has none, and a text of at
-- least one byte that fits the message.
pub record IsLogging (m : Logging) : Type 0 where
  pub time : m.timestamp < 256 ^ 8
  pub tag_range : m.tag < 2 ^ 16
  pub no_tag : m.has_tag ≡ false → m.tag ≡ 0
  pub not_empty : 1 ≤ length m.message
  pub fits : length m.message + fixed_size m.has_tag < 2 ^ 16

module _ (level : Level) (timestamp : ℕ) (message : Bytes) where
  untagged_lem :
      timestamp < 256 ^ 8
      → 1 ≤ length message
      → length message + 9 < 2 ^ 16
      → let m : Logging = record {
        log_level = level;
        tag = 0;
        has_tag = false;
        timestamp = timestamp;
        message = message;
      } in
        (serialize_untagged m >>= λ bytes. parse_logging bytes false) ≡ ok m
  unfolding serialize_untagged parse_logging
  untagged_lem time ne fits =
      let type = ULogMessageType.logging in
      let size = length message + 9 in
      let small : size % 2 ^ 16 ≡ size = omega arith in
      let head = le_bytes 1 (level_byte level) ++ le_bytes 8 timestamp in
      let l =
        read_le_behind size type [] 1 (level_byte level) (le_bytes 8 timestamp ++ message) 3 refl
          (level_byte-lt level) in
      let t =
        read_le_behind size type (le_bytes 1 (level_byte level)) 8 timestamp message 4
          (omega (arith, length-le_bytes 1 (level_byte level))) time in
      let text =
        read_bytes_behind size type head message [] 12 (size - 9)
          (omega (
            arith,
            length-append {0} (le_bytes 1 (level_byte level)) (le_bytes 8 timestamp),
            length-le_bytes 1 (level_byte level),
            length-le_bytes 8 timestamp,
          ))
          (omega arith) in
      rw
        (
          exceeds_u16-false size fits,
          small,
          header_msg_size_at size _ _ fits,
          ltb-false size 10 (omega arith),
          l,
          t,
          level_of_byte-level_byte level,
        )
        (rw (simp (append-nil, append_assoc) at text))

  tagged_lem :
      (tag : ℕ)
      → tag < 2 ^ 16
      → timestamp < 256 ^ 8
      → 1 ≤ length message
      → length message + 11 < 2 ^ 16
      → let m : Logging = record {
        log_level = level;
        tag = tag;
        has_tag = true;
        timestamp = timestamp;
        message = message;
      } in
        (serialize_tagged m >>= λ bytes. parse_logging bytes true) ≡ ok m
  unfolding serialize_tagged parse_logging
  tagged_lem tag range time ne fits =
      let type = ULogMessageType.logging_tagged in
      let size = length message + 11 in
      let small : size % 2 ^ 16 ≡ size = omega arith in
      let l_bytes = le_bytes 1 (level_byte level) in
      let head = l_bytes ++ (le_bytes 2 tag ++ le_bytes 8 timestamp) in
      let l =
        read_le_behind size type [] 1 (level_byte level)
          (le_bytes 2 tag ++ (le_bytes 8 timestamp ++ message)) 3 refl (level_byte-lt level) in
      let g =
        read_le_behind size type l_bytes 2 tag (le_bytes 8 timestamp ++ message) 4
          (omega (arith, length-le_bytes 1 (level_byte level))) range in
      let t =
        read_le_behind size type (l_bytes ++ le_bytes 2 tag) 8 timestamp message 6
          (omega (
            arith,
            length-append {0} l_bytes (le_bytes 2 tag),
            length-le_bytes 1 (level_byte level),
            length-le_bytes 2 tag,
          ))
          time in
      let text =
        read_bytes_behind size type head message [] 14 (size - 11)
          (omega (
            arith,
            length-append {0} l_bytes (le_bytes 2 tag ++ le_bytes 8 timestamp),
            length-append {0} (le_bytes 2 tag) (le_bytes 8 timestamp),
            length-le_bytes 1 (level_byte level),
            length-le_bytes 2 tag,
            length-le_bytes 8 timestamp,
          ))
          (omega arith) in
      rw
        (
          exceeds_u16-false size fits,
          small,
          header_msg_size_at size _ _ fits,
          ltb-false size 12 (omega arith),
          l,
          g,
          level_of_byte-level_byte level,
        )
        (rw (simp append_assoc at t) (rw (simp (append-nil, append_assoc) at text)))

  by_kind :
      (tag : ℕ) (has_tag : Bool)
      → let m : Logging = record {
        log_level = level;
        tag = tag;
        has_tag = has_tag;
        timestamp = timestamp;
        message = message;
      } in
        IsLogging m → (serialize_logging m >>= λ bytes. parse_logging bytes has_tag) ≡ ok m
  unfolding serialize_logging
  by_kind tag true v = tagged_lem tag v.tag_range v.time v.not_empty v.fits
  by_kind tag false v =
      let e : tag ≡ 0 = v.no_tag refl in rw e (untagged_lem v.time v.not_empty v.fits)

-- A log line with a text of at least one byte that fits the message, a 64-bit time and a 16-bit
-- tag, which is 0 where it has none, is serialized, and is parsed as it was by the constructor for
-- its kind of message.
pub parse-serialize_logging :
    (m : Logging)
    → IsLogging m
    → (serialize_logging m >>= λ bytes. parse_logging bytes m.has_tag) ≡ ok m
parse-serialize_logging m v = by_kind m.log_level m.timestamp m.message m.tag m.has_tag v
