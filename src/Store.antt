-- ===== src/Store.antt =====
-- pkg/library/internal/store: where a book lies under the library root.
pub mod Paths
