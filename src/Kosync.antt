-- ===== src/Kosync.antt =====
-- internal/kosync: the KOReader sync server. Its state is the mapping from document ids to books, in
-- memory and on disk, and the kosync.json sidecar of each book.
pub mod Mapping
pub mod Hook
pub mod Status
pub mod Handlers
pub mod Backed
pub mod Hash
