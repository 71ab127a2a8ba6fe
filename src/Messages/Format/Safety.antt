-- ===== src/Messages/Format/Safety.antt =====
-- The constructor of `MessageFormat` reads nothing outside of the message, and its loop ends.
use ulog_cpp.Prelude.{
  ℕ, zero, suc, ◌+◌, ◌≤◌, Option, none, some, [], ◌∷◌, arith, Option-cases, inl, inr, Bytes, length,
  take, drop, length-drop,
}
use ulog_cpp.Exception.{IsClean}
use ulog_cpp.Memory.{read_bytes_inside}
use ulog_cpp.RawMessages.{HoldsMessage}
use ulog_cpp.Text.Find.{find}
use ulog_cpp.Field.Safety.{parse_field-IsClean}
use ulog_cpp.Messages.Format.{parse_fields, parse_named, parse_format_str, parse_format}

parse_fields-IsClean : (fuel : ℕ) (s : Bytes) → length s ≤ fuel → IsClean (parse_fields fuel s)
unfolding parse_fields
parse_fields-IsClean zero [] h = ground arith
parse_fields-IsClean (suc fuel) [] h = ground arith
parse_fields-IsClean zero (c ∷ s) h = absurd (omega arith)
parse_fields-IsClean (suc fuel) (c ∷ s) h = elim (Option-cases (find b';' (c ∷ s))) [
  | inl e ↦ rw (e, parse_fields) (ground arith)
  | inr (i, e) ↦
      let rest = drop (i + 1) (c ∷ s) in
      rw (e, parse_fields)
        (ground (
          arith,
          parse_field-IsClean (take i (c ∷ s)),
          parse_fields-IsClean fuel rest (omega (arith, length-drop {0} (i + 1) (c ∷ s))),
        ))
]

parse_named-IsClean : (str : Bytes) (o : Option ℕ) → IsClean (parse_named str o)
unfolding parse_named
parse_named-IsClean str none = ground arith
parse_named-IsClean str (some colon) =
    let rest = drop (colon + 1) str in
    ground (arith, parse_fields-IsClean (length rest) rest (omega arith))

-- Parsing a format's message reads only the message, and the loop over its fields ends.
pub parse_format-IsClean :
    (msg : Bytes) (size : ℕ) → HoldsMessage msg size → IsClean (parse_format msg)
unfolding parse_format parse_format_str
parse_format-IsClean msg size v =
    let str = take size (drop 3 msg) in
    ground (arith, v.header, read_bytes_inside msg 3 size, parse_named-IsClean str (find b':' str))
