-- ===== src/Epub.antt =====
-- pkg/epub: the package document of an epub, its vocabulary, its elements and its fields.
pub mod Vocab
pub mod Dom
pub mod Slots
pub mod Opf
pub mod Zip
pub mod Ocf
pub mod Books
pub mod Saving
