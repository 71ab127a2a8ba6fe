-- ===== src/Field/Safety.antt =====
-- Parsing a field reads nothing outside of its text.
use ulog_cpp.Prelude.{arith, Bytes}
use ulog_cpp.Exception.{IsClean}
use ulog_cpp.Text.Decimal.{stoi-IsClean}
use ulog_cpp.Field.{parse_field}

pub parse_field-IsClean : (s : Bytes) → IsClean (parse_field s)
unfolding parse_field
parse_field-IsClean s = grind (arith, stoi-IsClean)
