-- ===== src/Strq.antt =====
-- libmhe/strq.c (under src/): quoting, tokens, paths, texts and the encoding of URLs.
pub mod Rfc1738
pub mod Quote
pub mod Scan
pub mod Text
pub mod Path
