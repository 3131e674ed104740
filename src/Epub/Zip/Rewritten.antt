-- ===== src/Epub/Zip/Rewritten.antt =====
-- What an epub reads after `writeTo` of pkg/epub/zip.go.
use ebookfs.Common.{
  ◌≡◌, ◌≢◌, refl, sym, ap, ◌∙◌, false, List, [], ◌∷◌, Option, none, some, arith, if◌then◌else◌,
  Text, text_eq, text_eq_iff, text_comparable, contains, Dict, get, Bool-cases, Option-cases, inl,
  inr, map, without,
}
use ebookfs.VFile.{Bytes}
use ebookfs.Epub.Zip.{
  Entry, mimetype_path, file, content_of, read, ends_in_slash, written_as, write_entry, write_rest,
  first_unused,
}

abbrev pub rewritten : Option Bytes → Option Entry → Option Entry
rewritten data' none = none
rewritten data' (some f) = some (written_as data' f)

written_name : (data' : Option Bytes) (f : Entry) → (written_as data' f).name ≡ f.name
written_name (some b) f = refl
written_name none f = ground arith

differ : (s u : Text) → s ≢ u → text_eq s u ≡ false
differ s u h = elim (Bool-cases (text_eq s u)) [
  | inl e ↦ absurd (h ((text_eq_iff s u).0 e))
  | inr e ↦ e
]

pub file_head :
    (f : Entry) (fs : List Entry) (name : Text) → f.name ≡ name → file (f ∷ fs) name ≡ some f
unfolding file
file_head f fs name e = rw ((text_eq_iff f.name name).1 e) refl

pub file_tail :
    (f : Entry) (fs : List Entry) (name : Text) → f.name ≢ name → file (f ∷ fs) name ≡ file fs name
unfolding file
file_tail f fs name h = rw (differ f.name name h) refl

pub write_first :
    (replace : Dict Text Bytes) (seen : List Text) (f : Entry)
    → contains seen f.name ≡ false
    → write_entry replace seen f ≡ written_as (get replace f.name) f
write_first replace seen f e = ap (λ b. written_as (if b then none else get replace f.name) f) e

pub write_name :
    (replace : Dict Text Bytes) (seen : List Text) (f : Entry)
    → (write_entry replace seen f).name ≡ f.name
write_name replace seen f =
    written_name (if contains seen f.name then none else get replace f.name) f

pub written_first :
    (replace : Dict Text Bytes) (seen : List Text) (f : Entry) (rest : List Entry) (name : Text)
    → f.name ≡ name
    → contains seen name ≡ false
    → file (write_entry replace seen f ∷ rest) name ≡ some (written_as (get replace name) f)
written_first replace seen f rest name e k =
    let unseen : contains seen f.name ≡ false = ap (contains seen) e ∙ k in
    file_head (write_entry replace seen f) rest name (write_name replace seen f ∙ e)
    ∙ ap some (write_first replace seen f unseen)
    ∙ ap (λ n. some (written_as (get replace n) f)) e

-- the first entry of a name that has not been seen is the one that is replaced
pub file-write_rest :
    (replace : Dict Text Bytes) (fs : List Entry) (seen : List Text) (name : Text)
    → name ≢ mimetype_path
    → contains seen name ≡ false
    → file (write_rest replace seen fs) name ≡ rewritten (get replace name) (file fs name)
file-write_rest replace [] seen name h k = unfold file in refl
file-write_rest replace (f ∷ fs) seen name h k = elim (Bool-cases (text_eq f.name name)) [
  | inl here ↦
      let e : f.name ≡ name = (text_eq_iff f.name name).0 here in
      rw (differ f.name mimetype_path (λ p. h (sym e ∙ p))) (
        written_first replace seen f (write_rest replace (f.name ∷ seen) fs) name e k
        ∙ ap (rewritten (get replace name)) (sym (file_head f fs name e)))
  | inr away ↦
      let ne : f.name ≢ name = λ p. absurd (cc ((text_eq_iff f.name name).1 p)) in
      let later =
        file-write_rest replace fs (f.name ∷ seen) name h (ground arith)
        ∙ ap (rewritten (get replace name)) (sym (file_tail f fs name ne)) in
      elim (Bool-cases (text_eq f.name mimetype_path)) [
        | inl m ↦ rw m later
        | inr m ↦ rw m (
            file_tail (write_entry replace seen f) (write_rest replace (f.name ∷ seen) fs) name
              (λ p. ne (sym (write_name replace seen f) ∙ p))
            ∙ later)
      ]
]

-- what a name that was replaced reads, and what it reads otherwise
abbrev pub expected : Option Bytes → Option Bytes → Option Bytes
expected (some data') old = some data'
expected none old = old

pub read_rewritten :
    (data' : Option Bytes) (o : Option Entry) (name : Text)
    → ((f : Entry) → o ≡ some f → ends_in_slash f.name ≡ false)
    → (o ≢ none)
    → content_of (rewritten data' o) ≡ expected data' (content_of o)
read_rewritten data' none name h k = absurd (k refl)
read_rewritten (some b) (some f) name h k = refl
read_rewritten none (some f) name h k = rw (h f refl) refl

pub file_name : (zr : List Entry) (name : Text) (f : Entry) → file zr name ≡ some f → f.name ≡ name
unfolding file
file_name [] name f e = absurd (cc)
file_name (g ∷ zr) name f e = ground (arith, text_eq_iff g.name name, file_name zr name f)

pub get_used :
    (zr : List Entry) (replace : Dict Text Bytes) (name : Text) (data' : Bytes)
    → first_unused zr replace ≡ none
    → get replace name ≡ some data'
    → file zr name ≢ none
unfolding get
get_used zr [] name data' u g = absurd (cc)
get_used zr ((j, v) ∷ replace) name data' u g = elim (Option-cases (file zr j)) [
  | inl e ↦ let away : first_unused zr ((j, v) ∷ replace) ≡ some j = rw e refl in absurd (cc)
  | inr (f, e) ↦
      let later : first_unused zr ((j, v) ∷ replace) ≡ first_unused zr replace = rw e refl in
      elim (Bool-cases (text_eq j name)) [
        | inl same ↦ λ p. let here = ap (file zr) ((text_eq_iff j name).0 same) in absurd (cc)
        | inr other ↦
            get_used zr replace name data' (sym later ∙ u)
              (sym (ap (λ b. if b then some v else get replace name) other) ∙ g)
      ]
]

-- a name that is not there is not replaced
pub expected-file :
    (replace : Dict Text Bytes) (zr : List Entry) (name : Text)
    → ends_in_slash name ≡ false
    → first_unused zr replace ≡ none
    → content_of (rewritten (get replace name) (file zr name))
      ≡ expected (get replace name) (read zr name)
unfolding read
expected-file replace zr name slash u = elim (Option-cases (file zr name)) [
  | inr (f, e) ↦
      read_rewritten (get replace name) (file zr name) name
        (λ g h. ap ends_in_slash (file_name zr name g h) ∙ slash) (λ p. absurd (cc))
  | inl e ↦ elim (Option-cases (get replace name)) [
    | inl n ↦ rw (e, n) refl
    | inr (data', s) ↦ absurd (get_used zr replace name data' u s e)
  ]
]

-- the names that are written, which are those of the archive without mimetype
abbrev pub names : List Entry → List Text
names fs = map (λ f. f.name) fs

pub names-write_rest :
    (replace : Dict Text Bytes) (seen : List Text) (fs : List Entry)
    → names (write_rest replace seen fs) ≡ without (names fs) mimetype_path
names-write_rest replace seen [] = refl
names-write_rest replace seen (f ∷ fs) = elim (Bool-cases (text_eq f.name mimetype_path)) [
  | inl m ↦ rw m (names-write_rest replace (f.name ∷ seen) fs)
  | inr m ↦ rw m (
      ap (λ n. n ∷ names (write_rest replace (f.name ∷ seen) fs)) (write_name replace seen f)
      ∙ ap (λ l. f.name ∷ l) (names-write_rest replace (f.name ∷ seen) fs))
]
