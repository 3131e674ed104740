-- ===== src/Views/Match.antt =====
-- internal/fs/views/match.go: whether a book answers a query. `lower` is `strings.ToLower`, which rests on
-- the tables of Unicode.
use ebookfs.Common.{
  Bool, true, false, ◌&&◌, ◌||◌, List, [], ◌∷◌, if◌then◌else◌, ◌==◌, any, contains, Text,
  text_comparable, int_comparable,
}
use ebookfs.Book.{Author, Book, has_series, series_name}
use ebookfs.TextFmt.Query.{Query}

abbrev pub is_empty {ℓ} : {A : Type ℓ} → List A → Bool
is_empty [] = true
is_empty (x ∷ xs) = false

-- `strings.Contains`
abbrev pub begins_with : Text → Text → Bool
begins_with s [] = true
begins_with [] (c ∷ p) = false
begins_with (d ∷ s) (c ∷ p) = (d == c) && begins_with s p

abbrev pub holds_text : Text → Text → Bool
holds_text [] p = begins_with [] p
holds_text (c ∷ s) p = begins_with (c ∷ s) p || holds_text s p

abbrev pub matches_authors : Query → Book → Bool
matches_authors q b =
    is_empty q.authors
    || any (λ (a : Author). contains q.authors a.name || contains q.authors a.sort_name)
        b.bib.authors

abbrev pub matches_tags : Query → Book → Bool
matches_tags q b = is_empty q.tags || any (contains b.meta.tags) q.tags

abbrev pub matches_series : Query → Book → Bool
matches_series q b = is_empty q.series || (has_series b && contains q.series (series_name b))

abbrev pub matches_status : Query → Book → Bool
matches_status q b = is_empty q.status || contains q.status b.meta.status

abbrev pub matches_ids : Query → Book → Bool
matches_ids q b = is_empty q.ids || contains q.ids b.meta.id

abbrev pub matches_titles : (Text → Text) → Query → Book → Bool
matches_titles lower q b =
    is_empty q.titles
    || (if q.exact_titles
        then contains q.titles b.bib.title
        else any (λ title. holds_text (lower b.bib.title) (lower title)) q.titles)

unfoldable pub matches : (Text → Text) → Query → Book → Bool
matches lower q b =
    matches_authors q b
    && matches_tags q b
    && matches_series q b
    && matches_status q b
    && matches_ids q b
    && matches_titles lower q b
