-- ===== src/Crypto.antt =====
-- crypto/crypto.cpp: the encodings. OpenSSL is a parameter; its signatures and digests are calls
-- without a logic of their own here.
pub mod Hex
pub mod HexLaws
pub mod Base64
pub mod Base64Laws
pub mod RoundTrip
pub mod Blocks
mod Examples
