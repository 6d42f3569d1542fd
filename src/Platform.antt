-- ===== src/Platform.antt =====
-- platforms/core/types.ts: the platforms that Cued ingests, what each of them needs and
-- supports, and the sets of words that its tables and rows are written with.
mod Types
mod Catalog
mod Features
mod Words
mod Laws
mod Tests
unfoldable pub use Types.*
unfoldable pub use Catalog.*
unfoldable pub use Features.*
unfoldable pub use Words.*
pub use Laws.*
