-- ===== src/Text.antt =====
-- Texts as lists of bytes, and the text helpers that the services of backend/internal share:
-- isUUIDLike, clientIP, and what they use of the package strings.
pub mod Uuid
pub mod Trim
pub mod Parts
pub mod Decimal
