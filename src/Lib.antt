-- ===== src/Lib.antt =====
-- Verification of ebookfs, an e-book library served as a 9P file system.
--
-- A library keeps each book in a directory of its own (pkg/library, over pkg/library/internal/store for
-- files and pkg/library/internal/index for the database), and internal/fs serves the books as a tree of
-- synthetic files in which metadata is read and edited as text. The modules model the program's own
-- logic; a Go function `DoThis` is `do_this` here.
--
--   Library      pkg/library: the facade. `Facade` (library.go, internal/index/op.go) edits and deletes,
--                `Ingest` (ingest.go, reindex.go, hooks.go) adds books and rebuilds the index;
--                `Agreement` is the invariant between index and files, `Edited` what an edit leaves.
--   Book         internal/book: the records of a book (book.go), the partial update `Edits` and its ten
--                validators (edits.go). `Book/Validation` holds the validators, `Acceptable` and `Accepts`
--                what they let through, `FirstRepeat` the search for a repeated key, `Facts` the lists
--                that are joined and thinned.
--   Naming       internal/util/naming/naming.go: text made safe for FAT and for one path component.
--   Store        pkg/library/internal/store/path.go: where a book lies, and the id read back from there.
--   VFile        internal/fs/vfile: per-fid write buffers (writebuffer.go), and snapshots for reading
--                (snapshot.go).
--   Ctl          internal/fs/ctl: the ring buffer of commands (log.go), the command line (command.go), the
--                selections of books (idspec.go) and the commands (exec.go), over an interface `Shelves`.
--   TextFmt      internal/fs/textfmt: queries and authors as text, with the query record of
--                pkg/library/internal/index/query.go.
--   Kosync       internal/kosync: the KOReader sync server. `Mapping` and `Hook` (mapping.go, hook.go) keep
--                document ids and sidecars, `Handlers` and `Status` (kosync.go) serve a device, `Hash`
--                (hash.go) samples an epub. `Backed` is the invariant that joins them, with `Removal` for a
--                book that goes and `Events` for every event. The library is
--                there the interface `Shelf`: a status that is read and set.
--   FieldFiles   internal/fs/book/fields.go: each field of a book as a text file, read and written.
--   Views        internal/fs/views and internal/fs/registry: `Match` (match.go), `BookList` (booklist.go and
--                the results of search_handle.go), `Registry` (registry.go), and `InSync`, the invariant
--                that a view lists what it selects, by the ids it has entries for. `Handles` are the search
--                handles (view_search.go, search_handle.go), their limits and the clone file; a time is a
--                number that each call is given.
--   Epub         pkg/epub/internal/opf: the package document. `Vocab` is the property vocabulary
--                (pkgdoc/vocab.go), `Dom` finds and makes elements (metadata.go, etree.go, ns.go, refine.go),
--                `Slots` are the places of a value (slot.go, docslots.go), `Opf` the fields (doc.go, fields.go
--                and the field files). The tree of elements is the etree library: the interface `Etree`, with
--                its documented behaviour in `Dom/Shows`. A document is told by its nodes' names, texts,
--                attributes and children, and an attribute by its name without the prefix.
--                `Zip` is the archive (pkg/epub/zip.go): a zip file is the list of its entries, and reading
--                one does not fail. `Ocf` is what is encrypted (internal/ocf), `Books` an epub that is open
--                (book.go), and `Saving` its Save (save.go), over those two and the fields of `Opf`.
--   FilePath, Float and Common hold what Go's library does: path/filepath on slash paths, float64
--                comparison, strings, int64 parsing and printing, maps as dictionaries.
--   Tests        runs of the model, and the theorems at concrete inputs.
--
-- Text is valid UTF-8, as a list of code points, and a byte string is a list of numbers below 256. A
-- uint64 is a number with its wrap-around written out; an int64 is an integer whose range is written out
-- where text is parsed. A float64 is NaN, an infinity or a multiple of 2^-1074, so that comparisons are exact; its
-- rounding is a parameter. A method that holds a mutex is one step on its state. Every recursion is
-- structural, on the text, the list or the number that the Go loop consumes. There is fuel for the
-- digits of a number, which are at most as many as the number itself, and for the search of a name that
-- is not taken, one round more than there are names.
--
-- Every file or database operation that can fail has its outcome as a parameter, with what a failure
-- leaves behind, so that a theorem holds for each way in which a run can go wrong. The library's files
-- are seen as the book that a scan makes of each directory. The epub code is the interface `EpubCode`.
--
-- Language tags are parsed by golang.org/x/text/language, which is a parameter of the validators. The
-- text of an error message is a value with the data that is formatted into it. Not modelled: SQL, the zip
-- format, the reading and printing of XML, HTTP and 9P transport, processes and configuration.
pub mod Common
pub mod FilePath
pub mod Naming
pub mod Float
pub mod Book
pub mod Store
pub mod VFile
pub mod TextFmt
pub mod FieldFiles
pub mod Views
pub mod Ctl
pub mod Library
pub mod Kosync
pub mod Epub
pub mod Tests
