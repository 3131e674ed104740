-- ===== src/Views.antt =====
-- internal/fs/views and internal/fs/registry: listings of books that follow every change of the library.
pub mod Match
pub mod BookList
pub mod Registry
pub mod InSync
pub mod Handles
