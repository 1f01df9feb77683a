-- ===== src/Json.antt =====
-- src/json_utils.c: reading members of a JSON text, and writing string values.
pub mod Scan
pub mod Copy
pub mod Get
pub mod Array
mod Tests
