-- ===== src/Stringx.antt =====
-- stringx: a text is the list of its code points, where the code ranges over runes, or of its bytes,
-- where it indexes bytes.
pub mod Blank
pub mod Words
pub mod FirstLetter
pub mod Identifiers
pub mod Keys
mod Examples
