-- ===== src/Codec.antt =====
-- The text encodings of bytes that the vault services use: encoding/hex, encoding/base64 and big-endian
-- numbers. A text is the list of its bytes.
pub mod Hex
pub mod Base64
pub mod BigEndian
mod Examples
