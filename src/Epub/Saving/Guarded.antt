-- ===== src/Epub/Saving/Guarded.antt =====
-- What a save of pkg/epub/save.go leaves alone.
use ebookfs.Common.{
  ℕ, ◌≡◌, ap, ◌∙◌, Bool, true, false, not, ◌&&◌, ◌||◌, List, [], ◌∷◌, map, Option, none, some,
  arith, if◌then◌else◌, Text, text_eq, text_eq_iff, text_comparable, Dict, get, put, get-put,
  Bool-cases, inl, inr,
}
use ebookfs.VFile.{Bytes}
use ebookfs.Epub.Zip.{has_entry, read}
use ebookfs.Epub.Ocf.{Algorithms, is_encrypted}
use ebookfs.Epub.Books.{EpubBook, Moved}
use ebookfs.Epub.Saving.{
  Staged, staged, refused, Fitted, unparsed, unfitted, fitted, Codecs, with_entry, fit_page,
  refit_cover_page, fit_names, sync_ncx, stage_config, stage_cover, then_sync, stage_package,
}

-- nothing that is encrypted is replaced
abbrev pub Spares : Option Algorithms → Dict Text Bytes → Type 0
Spares enc m = (name : Text) → is_encrypted enc name ≡ true → get m name ≡ none

abbrev pub AreSpared : Option Algorithms → Staged → Type 0
AreSpared enc (refused e) = Unit
AreSpared enc (staged m) = Spares enc m

put-Spares :
    (enc : Option Algorithms) (m : Dict Text Bytes) (k : Text) (v : Bytes)
    → is_encrypted enc k ≡ false
    → Spares enc m
    → Spares enc (put m k v)
put-Spares enc m k v open' s name hidden = elim (Bool-cases (text_eq k name)) [
  | inl e ↦ let same = ap (is_encrypted enc) ((text_eq_iff k name).0 e) in absurd (cc)
  | inr e ↦ get-put m k v name ∙ rw e (s name hidden)
]

with_entry-AreSpared :
    (enc : Option Algorithms) (m : Dict Text Bytes) (k : Text) (out : Option Bytes)
    → is_encrypted enc k ≡ false
    → Spares enc m
    → AreSpared enc (with_entry m k out)
with_entry-AreSpared enc m k none open' s = tt
with_entry-AreSpared enc m k (some v) open' s = put-Spares enc m k v open' s

module _ {T : Type 0} (c : Codecs T) (enc : Option Algorithms) (b : EpubBook T) where
  page-AreSpared :
      (entry : Text) (m : Dict Text Bytes) (rest : Staged) (f : Fitted)
      → is_encrypted enc entry ≡ false
      → Spares enc m
      → AreSpared enc rest
      → AreSpared enc
          (elim f [ unparsed ↦ rest | unfitted ↦ rest | fitted out ↦ with_entry m entry out ])
  page-AreSpared entry m rest unparsed open' s r = r
  page-AreSpared entry m rest unfitted open' s r = r
  page-AreSpared entry m rest (fitted out) open' s r = with_entry-AreSpared enc m entry out open' s

  fit_page-AreSpared :
      (entry : Text) (width height : ℕ) (m : Dict Text Bytes) (rest : Staged) (data' : Option Bytes)
      → is_encrypted enc entry ≡ false
      → Spares enc m
      → AreSpared enc rest
      → AreSpared enc (fit_page c enc b entry width height m rest data')
  fit_page-AreSpared entry width height m rest none open' s r = tt
  fit_page-AreSpared entry width height m rest (some data') open' s r =
      page-AreSpared entry m rest (c.fit_cover data' entry b.cover_path width height) open' s r

  refit-AreSpared :
      (entries : List Text) (width height : ℕ) (m : Dict Text Bytes)
      → Spares enc m
      → AreSpared enc (refit_cover_page c enc b entries width height m)
  refit-AreSpared [] width height m s = s
  refit-AreSpared (entry ∷ entries) width height m s =
      let rest = refit-AreSpared entries width height m s in
      elim (Bool-cases (not (has_entry b.entries entry) || is_encrypted enc entry)) [
        | inl e ↦ rw e rest
        | inr e ↦ rw e (
            fit_page-AreSpared entry width height m
              (refit_cover_page c enc b entries width height m) (read b.entries entry)
              (ground arith) s rest)
      ]

  fit_names-AreSpared :
      (entry : Text) (w : Moved) (m : Dict Text Bytes) (data' : Option Bytes)
      → is_encrypted enc entry ≡ false
      → Spares enc m
      → AreSpared enc (fit_names c enc b entry w m data')
  fit_names-AreSpared entry w m none open' s = tt
  fit_names-AreSpared entry w m (some data') open' s =
      page-AreSpared entry m (staged m)
        (c.fit_ncx data' (if w.title then some b.meta.title else none)
          (if w.authors then some (map (λ a. a.name) b.meta.authors) else none))
        open' s s

  sync_ncx-AreSpared :
      (entry : Text) (w : Moved) (m : Dict Text Bytes)
      → Spares enc m
      → AreSpared enc (sync_ncx c enc b entry w m)
  sync_ncx-AreSpared entry w m s = elim (Bool-cases (not w.title && not w.authors)) [
    | inl e ↦ rw e s
    | inr e ↦
        elim (Bool-cases
          (text_eq entry [] || not (has_entry b.entries entry) || is_encrypted enc entry)) [
            | inl f ↦ rw (e, f) s
            | inr f ↦
                rw (e, f) (fit_names-AreSpared entry w m (read b.entries entry) (ground arith) s)
          ]
  ]

  stage_config-AreSpared :
      (pages : List Text) (m : Dict Text Bytes) (o : Option (Text × ℕ × ℕ))
      → Spares enc m
      → AreSpared enc (stage_config c enc b pages m o)
  stage_config-AreSpared pages m none s = tt
  stage_config-AreSpared pages m (some (format, width, height)) s =
      refit-AreSpared pages width height m s

  pub stage_cover-AreSpared :
      (pages : List Text) (cover : Option Bytes) (m : Dict Text Bytes)
      → Spares enc m
      → AreSpared enc (stage_cover c enc b pages cover m)
  stage_cover-AreSpared pages none m s = s
  stage_cover-AreSpared pages (some img) m s = elim (Bool-cases (is_encrypted enc b.cover_path)) [
    | inl e ↦ rw e tt
    | inr e ↦ rw e (
        stage_config-AreSpared pages (put m b.cover_path img) (c.decode_config img)
          (put-Spares enc m b.cover_path img e s))
  ]

  then_sync-AreSpared :
      (entry : Text) (w : Moved) (s : Staged)
      → AreSpared enc s
      → AreSpared enc (then_sync c enc b entry w s)
  then_sync-AreSpared entry w (refused e) s = tt
  then_sync-AreSpared entry w (staged m) s = sync_ncx-AreSpared entry w m s

  pub stage_package-AreSpared :
      (entry : Text) (w : Moved) (edited : Bool) (printed : Option Bytes) (m : Dict Text Bytes)
      → is_encrypted enc b.package_path ≡ false
      → Spares enc m
      → AreSpared enc (stage_package c enc b entry w edited printed m)
  stage_package-AreSpared entry w true printed m open' s =
      then_sync-AreSpared entry w (with_entry m b.package_path printed)
        (with_entry-AreSpared enc m b.package_path printed open' s)
  stage_package-AreSpared entry w false printed m open' s = sync_ncx-AreSpared entry w m s
