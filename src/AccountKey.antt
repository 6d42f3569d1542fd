-- ===== src/AccountKey.antt =====
-- src/platforms/core/account-keys.ts: which texts name an account.
mod Validate
mod Laws
mod Tests
unfoldable pub use Validate.*
pub use Laws.*
