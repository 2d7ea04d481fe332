-- ===== src/Bytes.antt =====
-- Byte slices, and what the program uses of `copy`, slicing and `encoding/binary`.
-- A byte is a number; a value is cut to a byte where the source converts it.
pub mod Copy
pub mod BigEndian
pub mod Reader
pub mod Compare
pub mod Edits
pub mod Utf8
