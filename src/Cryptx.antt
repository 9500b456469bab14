-- ===== src/Cryptx.antt =====
-- cryptx/decode.go: the replacements in texts and the escapes of JSON.
pub mod Replace
