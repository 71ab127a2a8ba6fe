-- ===== src/Text.antt =====
-- The operations of `std::string` and `std::string_view` that the code parses and prints with:
-- `find`, `std::stoi` and `std::to_string`.
pub mod Decimal
pub mod Find
