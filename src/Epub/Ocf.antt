-- ===== src/Epub/Ocf.antt =====
-- pkg/epub/internal/ocf: which entries of an epub are encrypted (encryption.go, attr.go). The XML decoder and
-- url.PathUnescape are parameters.
use ebookfs.Common.{
  Bool, false, not, List, [], ◌∷◌, Option, none, some, if◌then◌else◌, Text, text_eq,
  text_comparable, codes, contains, Dict, get, put,
}
use ebookfs.Epub.Vocab.{collapse}

-- AttrURL
pub record AttrUrl : Type 0 where
  pub raw : Text
  pub decoded : Text

-- `unescape` is url.PathUnescape, which fails as nil
abbrev pub unescape_path : (Text → Option Text) → Text → Text
unescape_path unescape s = elim (unescape s) [ none ↦ s | some decoded ↦ decoded ]

abbrev pub attr_url : (Text → Option Text) → Text → AttrUrl
attr_url unescape value = record {
  raw = collapse value;
  decoded = unescape_path unescape (collapse value);
}

abbrev pub candidate_names : AttrUrl → List Text
candidate_names u = if text_eq u.decoded u.raw then u.raw ∷ [] else u.decoded ∷ u.raw ∷ []

abbrev pub obfuscation_algorithms : List Text
obfuscation_algorithms =
    codes "http://ns.adobe.com/pdf/enc#RC" ∷ codes "http://www.idpf.org/2008/embedding" ∷ []

-- the names of the entries that are listed, with their algorithms
abbrev pub Algorithms : Type 0
Algorithms = Dict Text Text

abbrev pub list_under : Text → Algorithms → List Text → Algorithms
list_under algo info [] = info
list_under algo info (name ∷ names) =
    list_under algo (if text_eq name [] then info else put info name algo) names

-- `NewEncryptionInfo`, over the algorithms and URIs of the document
unfoldable pub new_encryption_info : Algorithms → List (Text × AttrUrl) → Algorithms
new_encryption_info info [] = info
new_encryption_info info ((algo, uri) ∷ rows) =
    new_encryption_info
      (if text_eq algo [] then info else list_under algo info (candidate_names uri)) rows

abbrev pub is_real : Option Text → Bool
is_real none = false
is_real (some algo) = not (contains obfuscation_algorithms algo)

-- `none` is the nil of an epub without the document.
unfoldable pub is_encrypted : Option Algorithms → Text → Bool
is_encrypted none name = false
is_encrypted (some info) name = is_real (get info name)
