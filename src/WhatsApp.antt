-- ===== src/WhatsApp.antt =====
-- src/platforms/whatsapp/sync/proof.ts: what a resync has covered.
mod Proof
mod Coverage
mod Tests
unfoldable pub use Proof.*
pub use Coverage.*
