-- ===== src/Storage.antt =====
-- core/src/extensions/storage: the single-use keys of uploads and downloads.
pub mod Nonce
mod Tests
