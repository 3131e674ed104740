-- ===== src/Epub/Saving/Kept.antt =====
-- The file that a save of pkg/epub/save.go leaves, whether it succeeds or fails.
use ebookfs.Common.{
  ℕ, ◌≡◌, ◌⊎◌, refl, ap, ◌∙◌, subst, true, false, List, [], ◌∷◌, Option, none, some, Text,
  text_comparable, Dict, get-nil, Bool-cases, Option-cases, inl, inr,
}
use ebookfs.VFile.{Bytes}
use ebookfs.Epub.Dom.{Etree, Doc}
use ebookfs.Epub.Opf.Manifest.{cover_pages, ncx_path}
use ebookfs.Epub.Zip.{Entry, ZipResult, ok, err, has_entry, read, write_to, ends_in_slash}
use ebookfs.Epub.Zip.Rewritten.{expected}
use ebookfs.Epub.Zip.Written.{write_to_lem}
use ebookfs.Epub.Ocf.{Algorithms, is_encrypted}
use ebookfs.Epub.Books.{EpubBook, Moved, moved_from, changed, new_book, metadata_of}
use ebookfs.Epub.Books.Unmoved.{changed-moved_from}
use ebookfs.Epub.Saving.{
  SaveError, signed, bad_encryption, Staged, staged, refused, Codecs, read_encryption, stage_cover,
  edit_doc, stage_fields, stage, Outcomes, replaced_by, written_to, rewrite, save_staged, save,
  signatures_path,
}
use ebookfs.Epub.Saving.Guarded.{Spares, AreSpared, stage_cover-AreSpared, stage_package-AreSpared}

module _ {T : Type 0} (x : Etree T) (d : Doc) (c : Codecs T) (lower : ℕ → ℕ)
    (resolve : Text → Text → Text) where
  -- what is staged, and that the book's archive is as it was
  IsGuarded : Option Algorithms → EpubBook T → Staged × EpubBook T → Type 0
  IsGuarded enc b s = AreSpared enc s.0 × (s.1.entries ≡ b.entries)

  fields-IsGuarded :
      (enc : Option Algorithms) (b : EpubBook T) (time : Text) (m : Moved) (s : Staged)
      → AreSpared enc s
      → IsGuarded enc b (stage_fields x d c lower resolve enc b time m s)
  unfolding IsGuarded
  fields-IsGuarded enc b time m (refused e) a = (tt, refl)
  fields-IsGuarded enc b time m (staged replace) a = elim (Bool-cases (changed m)) [
    | inr e ↦ rw e (a, refl)
    | inl e ↦ elim (Bool-cases (is_encrypted enc b.package_path)) [
      | inl f ↦ rw (e, f) (tt, refl)
      | inr f ↦
          let (edited, t) = edit_doc x d c lower resolve b m time in
          rw (e, f)
            (
              stage_package-AreSpared c enc b (ncx_path lower (resolve b.package_path) x d t) m
                  edited (c.print t) replace f a,
              refl,
            )
    ]
  ]

  nothing-Spares : (enc : Option Algorithms) → Spares enc []
  nothing-Spares enc name hidden = get-nil name

  stage-IsGuarded :
      (b : EpubBook T) (time : Text) (enc : Option Algorithms)
      → read_encryption c b.entries ≡ some enc
      → IsGuarded enc b (stage x d c lower resolve b time)
  unfolding IsGuarded stage
  stage-IsGuarded b time enc e = elim (Bool-cases (has_entry b.entries signatures_path)) [
    | inl f ↦ rw f (tt, refl)
    | inr f ↦
        rw (f, e)
          (fields-IsGuarded enc b time (moved_from b.orig b.meta)
            (stage_cover c enc b (cover_pages lower (resolve b.package_path) x d b.doc) b.cover [])
            (stage_cover-AreSpared c enc b (cover_pages lower (resolve b.package_path) x d b.doc)
              b.cover [] (nothing-Spares enc)))
  ]

  -- the archive is as it was, or there is no error and it is what was written
  abbrev Leaves : Dict Text Bytes → List Entry → Option SaveError × List Entry × EpubBook T → Type 0
  Leaves m old r =
      (r.1 ≡ old) ⊎ ((r.0 ≡ none) × ((out : List Entry) × (write_to old m ≡ ok out) × (r.1 ≡ out)))

  replaced-Leaves :
      (o : Outcomes x d c lower resolve) (b : EpubBook T) (m : Dict Text Bytes)
      (old out : List Entry) (next : Option (EpubBook T))
      → write_to old m ≡ ok out
      → Leaves m old (replaced_by x d c lower resolve o b old out next)
  replaced-Leaves o b m old out none e = inl refl
  replaced-Leaves o b m old out (some next) e = elim (Bool-cases o.renames) [
    | inl f ↦ rw f (inr (refl, (out, e, refl)))
    | inr f ↦ rw f (inl refl)
  ]

  written-Leaves :
      (o : Outcomes x d c lower resolve) (b : EpubBook T) (m : Dict Text Bytes) (old : List Entry)
      (z : ZipResult (List Entry))
      → write_to old m ≡ z
      → Leaves m old (written_to x d c lower resolve o b old z)
  written-Leaves o b m old (err z) e = inl refl
  written-Leaves o b m old (ok out) e = replaced-Leaves o b m old out (o.opens out) e

  rewrite-Leaves :
      (o : Outcomes x d c lower resolve) (b : EpubBook T) (m : Dict Text Bytes)
      → Leaves m b.entries (rewrite x d c lower resolve o b m)
  unfolding rewrite
  rewrite-Leaves o b m = elim (Bool-cases o.writes) [
    | inl e ↦ rw e (written-Leaves o b m b.entries (write_to b.entries m) refl)
    | inr e ↦ rw e (inl refl)
  ]

  -- what is replaced, as an epub that has been staged says
  abbrev Saved :
      Option Algorithms → List Entry → Option SaveError × List Entry × EpubBook T → Type 0
  Saved enc old r = (m : Dict Text Bytes) × Spares enc m × Leaves m old r

  save_staged-Saved :
      (o : Outcomes x d c lower resolve) (enc : Option Algorithms) (s : Staged) (b : EpubBook T)
      → AreSpared enc s
      → Saved enc b.entries (save_staged x d c lower resolve o s b)
  save_staged-Saved o enc (refused e) b a = ([], nothing-Spares enc, inl refl)
  save_staged-Saved o enc (staged []) b a = ([], a, inl refl)
  save_staged-Saved o enc (staged (r ∷ m)) b a = (r ∷ m, a, rewrite-Leaves o b (r ∷ m))

  save-Saved :
      (o : Outcomes x d c lower resolve) (b : EpubBook T) (time : Text) (enc : Option Algorithms)
      → read_encryption c b.entries ≡ some enc
      → Saved enc b.entries (save x d c lower resolve o b time)
  unfolding save IsGuarded
  save-Saved o b time enc e =
      let (a, same) = stage-IsGuarded b time enc e in
      let (s, b') = stage x d c lower resolve b time in
      subst (λ old. Saved enc old (save_staged x d c lower resolve o s b')) same
        (save_staged-Saved o enc s b' a)

  spared_read :
      (enc : Option Algorithms) (old : List Entry) (r : Option SaveError × List Entry × EpubBook T)
      (name : Text)
      → Saved enc old r
      → is_encrypted enc name ≡ true
      → ends_in_slash name ≡ false
      → read r.1 name ≡ read old name
  spared_read enc old r name (m, spares, inl same) hidden slash = ap (λ l. read l name) same
  spared_read enc old r name (m, spares, inr (no_error, (out, w, same))) hidden slash =
      ap (λ l. read l name) same
      ∙ (write_to_lem old m out name w slash).1
      ∙ ap (λ e. expected e (read old name)) (spares name hidden)

  -- Whatever a save does and however it ends, each entry that the archive's encryption document lists
  -- under an algorithm that is not font obfuscation reads as it did, where that document can be read and
  -- the entry is not a directory.
  pub save-encrypted :
      (o : Outcomes x d c lower resolve) (b : EpubBook T) (time : Text) (enc : Option Algorithms)
      (name : Text)
      → read_encryption c b.entries ≡ some enc
      → is_encrypted enc name ≡ true
      → ends_in_slash name ≡ false
      → read (save x d c lower resolve o b time).1 name ≡ read b.entries name
  save-encrypted o b time enc name e hidden slash =
      spared_read enc b.entries (save x d c lower resolve o b time) name (save-Saved o b time enc e)
        hidden slash

  signed_refused :
      (o : Outcomes x d c lower resolve) (b : EpubBook T) (time : Text)
      → has_entry b.entries signatures_path ≡ true
      → save x d c lower resolve o b time ≡ (some signed, b.entries, b)
  unfolding save stage
  signed_refused o b time e = rw e refl

  unread_refused :
      (o : Outcomes x d c lower resolve) (b : EpubBook T) (time : Text)
      → has_entry b.entries signatures_path ≡ false
      → read_encryption c b.entries ≡ none
      → save x d c lower resolve o b time ≡ (some bad_encryption, b.entries, b)
  unfolding save stage
  unread_refused o b time e n = rw (e, n) refl

  failed_Saved :
      (enc : Option Algorithms) (old : List Entry) (r : Option SaveError × List Entry × EpubBook T)
      (e : SaveError)
      → Saved enc old r
      → r.0 ≡ some e
      → r.1 ≡ old
  failed_Saved enc old r e (m, spares, inl same) f = same
  failed_Saved enc old r e (m, spares, inr (no_error, k)) f = absurd (cc)

  -- A save that ends with an error, for whatever reason, leaves the archive as it was.
  pub save_failed :
      (o : Outcomes x d c lower resolve) (b : EpubBook T) (time : Text) (e : SaveError)
      → (save x d c lower resolve o b time).0 ≡ some e
      → (save x d c lower resolve o b time).1 ≡ b.entries
  save_failed o b time e f = elim (Bool-cases (has_entry b.entries signatures_path)) [
    | inl s ↦ ap (λ r. r.1) (signed_refused o b time s)
    | inr s ↦ elim (Option-cases (read_encryption c b.entries)) [
      | inl n ↦ ap (λ r. r.1) (unread_refused o b time s n)
      | inr (enc, k) ↦
          failed_Saved enc b.entries (save x d c lower resolve o b time) e
            (save-Saved o b time enc k) f
    ]
  ]

  -- A book that has not been changed since it was opened, in an epub that is not signed and whose
  -- encryption document can be read, is saved without an error and without touching the file.
  pub save-new_book :
      (o : Outcomes x d c lower resolve) (entries : List Entry) (package_path : Text) (t : T)
      (time : Text) (enc : Option Algorithms)
      → has_entry entries signatures_path ≡ false
      → read_encryption c entries ≡ some enc
      → save x d c lower resolve o (new_book x d lower resolve entries package_path t) time
        ≡ (none, entries, new_book x d lower resolve entries package_path t)
  unfolding save stage new_book
  save-new_book o entries package_path t time enc s k =
      rw (s, k, changed-moved_from (metadata_of x d t)) refl
