-- ===== src/Contacts.antt =====
-- src/db/database.ts and src/db/schema.ts: the decisions that merge two contacts into one, and the
-- contact that an identifier stands for after them.
mod Types
mod Alias
mod Merge
mod Resolution
mod Union
mod Plan
mod NoCycle
mod Listing
mod Record
mod Memories
mod Tests
unfoldable pub use Types.*
unfoldable pub use Alias.*
unfoldable pub use Merge.*
pub use Resolution.*
pub use Plan.*
pub use Record.*
pub use Memories.*
