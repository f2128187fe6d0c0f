-- ===== src/Keystore.antt =====
-- keystore/: authenticated encryption of credentials at rest, and where its key comes from.
pub mod Decimal
pub mod Providers
pub mod Aead
