-- ===== src/Converter.antt =====
-- src/converter.c: numbers and bytes as text, and back.
pub mod Bits
pub mod Hex
pub mod HexLaws
pub mod Decimal
pub mod Base64
pub mod Buffers
pub mod Base64Laws
pub mod Uuid
pub mod UuidLaws
pub mod Numeral
pub mod Text
mod Tests
