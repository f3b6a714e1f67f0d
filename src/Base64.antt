-- ===== src/Base64.antt =====
-- common/base64.c: the encoder, the decoder, and that the second undoes the first.
pub mod Codec
pub mod RoundTrip
mod Runs
