-- ===== src/Tests/Archives.antt =====
-- The archive and the search handles on small data, and the theorems at them.
use ebookfs.Common.{
  ℕ, trim_space, split_on, cut_at, ◌≡◌, ◌↔◌, refl, true, false, List, [], ◌∷◌, some, none, arith,
  Text, codes, text_comparable, Dict, get, put, without, contains, nat_comparable, All,
}
use ebookfs.VFile.{Bytes, clamp_read}
use ebookfs.Epub.Zip.{
  Entry, ok, err, no_entry, mimetype_path, mimetype_value, has_entry, read, write_to,
  validate_archive, file,
}
use ebookfs.Epub.Zip.Rewritten.{names, expected}
use ebookfs.Epub.Zip.Written.{write_to_lem, write_to-ok_iff}
use ebookfs.Views.Handles.{
  Handle, SearchDir, ids, new_search_dir, allocate_handle, evict, surplus, ctl_command, CloneFile,
  clone_open, clone_read, id_line,
}
use ebookfs.Views.Handles.Recent.{AllBefore, evict_recent}
use ebookfs.Views.Handles.Runs.{
  IsTracked, Run, start, next, clone, command, new_search_dir-IsTracked, Run-IsTracked,
}
use ebookfs.Views.Handles.Clones.{clone_read_lem}

abbrev stored : Text → Bytes → Entry
stored name content = record { name = name; content = content; method = 0; modified = 0 }

-- a package document before the mimetype, and another entry of its name behind
abbrev tehanu_zip : List Entry
tehanu_zip =
    stored (codes "OEBPS/") []
    ∷ stored (codes "OEBPS/a.opf") (1 ∷ [])
    ∷ stored mimetype_path mimetype_value
    ∷ stored (codes "OEBPS/a.opf") (2 ∷ [])
    ∷ []

abbrev edited : Dict Text Bytes
edited = (codes "OEBPS/a.opf", 3 ∷ []) ∷ []

abbrev tehanu_out : List Entry
tehanu_out =
    stored mimetype_path mimetype_value
    ∷ stored (codes "OEBPS/") []
    ∷ stored (codes "OEBPS/a.opf") (3 ∷ [])
    ∷ stored (codes "OEBPS/a.opf") (2 ∷ [])
    ∷ []

tehanu_written : write_to tehanu_zip edited ≡ ok tehanu_out
unfolding write_to file get
tehanu_written = refl

tehanu_valid : validate_archive tehanu_zip ≡ none
unfolding validate_archive file trim_space
tehanu_valid = refl

not_there : write_to tehanu_zip ((codes "b.png", []) ∷ []) ≡ err (no_entry (codes "b.png"))
unfolding write_to file
not_there = refl

write_to_lem_example :
    (names tehanu_out ≡ mimetype_path ∷ without (names tehanu_zip) mimetype_path)
    × (read tehanu_out (codes "OEBPS/a.opf")
        ≡ expected (get edited (codes "OEBPS/a.opf")) (read tehanu_zip (codes "OEBPS/a.opf")))
write_to_lem_example =
    write_to_lem tehanu_zip edited tehanu_out (codes "OEBPS/a.opf") tehanu_written refl

write_to-ok_iff_example :
    ((out : List Entry) × (write_to tehanu_zip edited ≡ ok out))
    ↔ (has_entry tehanu_zip mimetype_path ≡ true)
      × All (λ e. has_entry tehanu_zip e.0 ≡ true) edited
write_to-ok_iff_example = write_to-ok_iff tehanu_zip edited

abbrev one_cloned : SearchDir
one_cloned = allocate_handle (new_search_dir 0 1) 5

abbrev searched : SearchDir
searched = (ctl_command one_cloned 1 6 (codes "status:unread")).1

-- the second clone takes the only place
abbrev two_cloned : SearchDir
two_cloned = allocate_handle searched 7

only_second : ids two_cloned.handles ≡ 2 ∷ []
unfolding allocate_handle ctl_command ebookfs.TextFmt.Query.parse_query split_on cut_at
    ebookfs.Views.Handles.execute_search new_search_dir
only_second = refl

cloned_twice : Run (new_search_dir 0 1) two_cloned
cloned_twice =
    next
      (next (next start (clone (new_search_dir 0 1) 5))
        (command one_cloned 1 6 (codes "status:unread")))
      (clone searched 7)

Run-IsTracked_example : IsTracked two_cloned
Run-IsTracked_example = Run-IsTracked 0 1 two_cloned cloned_twice

abbrev handle_at : ℕ → ℕ → Handle
handle_at id time = record { id = id; query_text = []; query = none; last_query = time }

-- the first handle was queried after the second
abbrev full : SearchDir
full = record {
  handles = handle_at 1 9 ∷ handle_at 2 4 ∷ [];
  next_id = 3;
  ttl = 0;
  max_handles = 2;
  views = 1 ∷ 2 ∷ [];
  listed = 1 ∷ 2 ∷ [];
}

evicted : ids (evict full 1).handles ≡ 1 ∷ []
unfolding evict
evicted = refl

evict_recent_example : All (AllBefore (surplus full 1)) (evict full 1).handles
evict_recent_example = evict_recent full 1 (omega arith) (omega arith)

abbrev opened : CloneFile
opened = clone_open (record { fids = [] }) 8

clone_read_lem_example :
    ((clone_read opened (new_search_dir 0 1) 8 0 9 5).0 ≡ some (clamp_read (id_line 1) 0 9))
    × (contains (ids (new_search_dir 0 1).handles) 1 ≡ false)
    × (contains (ids (clone_read opened (new_search_dir 0 1) 8 0 9 5).2.handles) 1 ≡ true)
    × IsTracked (clone_read opened (new_search_dir 0 1) 8 0 9 5).2
    × (clone_read (clone_read opened (new_search_dir 0 1) 8 0 9 5).1 two_cloned 8 0 9 7 ≡ (
      some (clamp_read (id_line 1) 0 9),
      (clone_read opened (new_search_dir 0 1) 8 0 9 5).1,
      two_cloned,
    ))
unfolding get clone_open put new_search_dir
clone_read_lem_example =
    clone_read_lem opened (new_search_dir 0 1) two_cloned 8 0 9 5 0 9 7 refl
      (new_search_dir-IsTracked 0 1)
