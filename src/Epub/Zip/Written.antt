-- ===== src/Epub/Zip/Written.antt =====
-- The archive that `writeTo` of pkg/epub/zip.go writes, and when it refuses to.
use ebookfs.Common.{
  ◌≡◌, ◌≢◌, ◌↔◌, refl, sym, ap, ◌∙◌, true, false, List, [], ◌∷◌, Option, none, some, Text, text_eq,
  text_eq_iff, text_comparable, without, Dict, get, Bool-cases, Option-cases, inl, inr, All,
}
use ebookfs.VFile.{Bytes}
use ebookfs.Epub.Zip.{
  Entry, no_mimetype, ok, err, mimetype_path, file, is_there, has_entry, content_of, read,
  ends_in_slash, write_entry, write_rest, first_unused, all_used, write_with, write_to,
}
use ebookfs.Epub.Zip.Rewritten.{
  rewritten, expected, expected-file, names, names-write_rest, write_name, written_first, file_tail,
  file_name, file-write_rest,
}

unfoldable written : Dict Text Bytes → Entry → List Entry → List Entry
written replace mt zr = write_entry replace [] mt ∷ write_rest replace [] zr

file-written :
    (replace : Dict Text Bytes) (zr : List Entry) (mt : Entry) (name : Text)
    → file zr mimetype_path ≡ some mt
    → file (written replace mt zr) name ≡ rewritten (get replace name) (file zr name)
unfolding written
file-written replace zr mt name e =
    let first : mt.name ≡ mimetype_path = file_name zr mimetype_path mt e in
    elim (Bool-cases (text_eq mimetype_path name)) [
      | inl m ↦
          let same : mimetype_path ≡ name = (text_eq_iff mimetype_path name).0 m in
          written_first replace [] mt (write_rest replace [] zr) name (first ∙ same) refl
          ∙ ap (rewritten (get replace name)) (sym e ∙ ap (file zr) same)
      | inr m ↦
          let other : name ≢ mimetype_path =
            λ p. absurd (cc ((text_eq_iff mimetype_path name).1 (sym p))) in
          file_tail (write_entry replace [] mt) (write_rest replace [] zr) name
            (λ p. other (sym p ∙ write_name replace [] mt ∙ first))
          ∙ file-write_rest replace zr [] name other refl
    ]

used :
    (out out' : List Entry) (o : Option Text) → all_used out' o ≡ ok out → (o ≡ none) × (out' ≡ out)
used out out' none e = (refl, cc)
used out out' (some n) e = absurd (cc)

write_to-ok :
    (zr : List Entry) (replace : Dict Text Bytes) (out : List Entry)
    → write_to zr replace ≡ ok out
    → (mt : Entry) × (file zr mimetype_path ≡ some mt)
      × (first_unused zr replace ≡ none)
      × (written replace mt zr ≡ out)
unfolding written
write_to-ok zr replace out e = elim (Option-cases (file zr mimetype_path)) [
  | inl n ↦
      let refused : write_to zr replace ≡ err no_mimetype =
        unfold write_to in ap (write_with zr replace) n in
      absurd (cc)
  | inr (mt, s) ↦
      let all : write_to zr replace ≡ all_used (written replace mt zr) (first_unused zr replace) =
        unfold write_to in ap (write_with zr replace) s in
      let (none_left, same) =
        used out (written replace mt zr) (first_unused zr replace) (sym all ∙ e) in
      (mt, s, none_left, same)
]

-- Where an archive is written, mimetype comes first and the other entries follow in their order, a
-- second mimetype left out; and any name that is not a directory's reads what replaces it, where something
-- does, and otherwise what it read before, or nothing if it was not there.
pub write_to_lem :
    (zr : List Entry) (replace : Dict Text Bytes) (out : List Entry) (name : Text)
    → write_to zr replace ≡ ok out
    → ends_in_slash name ≡ false
    → (names out ≡ mimetype_path ∷ without (names zr) mimetype_path)
      × (read out name ≡ expected (get replace name) (read zr name))
unfolding written read
write_to_lem zr replace out name e slash =
    let (mt, there, none_left, same) = write_to-ok zr replace out e in
    (
      ap names (sym same)
          ∙ ap (λ n. n ∷ names (write_rest replace [] zr))
              (write_name replace [] mt ∙ file_name zr mimetype_path mt there)
          ∙ ap (λ l. mimetype_path ∷ l) (names-write_rest replace [] zr),
      ap (λ o. read o name) (sym same)
          ∙ ap content_of (file-written replace zr mt name there)
          ∙ expected-file replace zr name slash none_left,
    )

unused_iff :
    (zr : List Entry) (replace : Dict Text Bytes)
    → (first_unused zr replace ≡ none → All (λ e. has_entry zr e.0 ≡ true) replace)
      × (All (λ e. has_entry zr e.0 ≡ true) replace → first_unused zr replace ≡ none)
unused_iff zr [] = (λ e. tt, λ a. refl)
unused_iff zr ((name, data') ∷ replace) =
    let (to, from) = unused_iff zr replace in
    elim (Bool-cases (has_entry zr name)) [
      | inl h ↦ (λ e. (h, to (sym (rw h refl) ∙ e)), λ a. rw h (from a.1))
      | inr h ↦ (
        λ e.
            let left : first_unused zr ((name, data') ∷ replace) ≡ some name = rw h refl in
            absurd (cc),
        λ a. absurd (cc),
      )
    ]

pub write_to-ok_iff :
    (zr : List Entry) (replace : Dict Text Bytes)
    → ((out : List Entry) × (write_to zr replace ≡ ok out))
      ↔ (has_entry zr mimetype_path ≡ true) × All (λ e. has_entry zr e.0 ≡ true) replace
unfolding write_to
write_to-ok_iff zr replace = (
  λ (out, e).
      let (mt, there, none_left, same) = write_to-ok zr replace out e in
      (ap is_there there, (unused_iff zr replace).0 none_left),
  λ (there, a). elim (Option-cases (file zr mimetype_path)) [
    | inl n ↦ absurd (cc (ap is_there n))
    | inr (mt, s) ↦ (
      write_entry replace [] mt ∷ write_rest replace [] zr,
      ap (write_with zr replace) s
          ∙ (ap (all_used (write_entry replace [] mt ∷ write_rest replace [] zr))
              ((unused_iff zr replace).1 a)),
    )
  ],
)
