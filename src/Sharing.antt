-- ===== src/Sharing.antt =====
-- core/src/extensions/sharing: who may call the public surface of an app.
pub mod Guard
mod Tests
