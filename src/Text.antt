-- ===== src/Text.antt =====
-- What the program uses of Go's fmt, strconv, strings and encoding/base64.
pub mod Space
pub mod Decimal
pub mod Split
pub mod Base64
pub mod Duration
