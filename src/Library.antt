-- ===== src/Library.antt =====
-- pkg/library: the facade that keeps the store's files and the index in agreement. A pending operation
-- is recorded before the files are touched and cleared with the index write, so that a failure between
-- the two is found at the next start and healed by a reindex.
pub mod Facade
pub mod Ingest
pub mod Agreement
pub mod Edited
