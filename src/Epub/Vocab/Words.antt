-- ===== src/Epub/Vocab/Words.antt =====
-- What the fields of a `prefix` attribute are, and what a declaration adds to them.
use ebookfs.Common.{
  ◌≡◌, ◌≢◌, refl, sym, ap, ◌∙◌, true, false, List, [], ◌∷◌, ◌++◌, append_assoc, Text, is_space,
  fields_by, fields_one, fields_more, fields_after, fields_none, fields_by-IsField, IsField, All,
  All-append, join,
}
use ebookfs.Epub.Vocab.{collapse, prefix_fields, with_declaration, declared}

abbrev pub IsWord : Text → Type 0
IsWord = IsField is_space

space_separates : is_space 32 ≡ true
unfolding is_space
space_separates = refl

colon_stays : is_space b':' ≡ false
unfolding is_space
colon_stays = refl

join_more :
    (f g : Text) (fs : List Text) → join (f ∷ g ∷ fs) (32 ∷ []) ≡ f ++ 32 ∷ join (g ∷ fs) (32 ∷ [])
unfolding join
join_more f g fs = refl

fields-join_rest :
    (fs : List Text) (rest : Text)
    → All IsWord fs
    → fields_by is_space (join fs (32 ∷ []) ++ 32 ∷ rest) ≡ fs ++ fields_by is_space rest
fields-join_rest [] rest h = unfold join in fields_after is_space 32 rest space_separates
fields-join_rest (f ∷ []) rest h =
    unfold join in fields_more is_space f 32 rest h.0.0 h.0.1 space_separates
fields-join_rest (f ∷ g ∷ fs) rest h =
    rw (join_more f g fs, append_assoc f (32 ∷ join (g ∷ fs) (32 ∷ [])) (32 ∷ rest))
      (fields_more is_space f 32 (join (g ∷ fs) (32 ∷ []) ++ 32 ∷ rest) h.0.0 h.0.1 space_separates
        ∙ ap (λ l. f ∷ l) (fields-join_rest (g ∷ fs) rest h.1))

pub fields-join : (fs : List Text) → All IsWord fs → fields_by is_space (join fs (32 ∷ [])) ≡ fs
fields-join [] h = unfold join in fields_none is_space
fields-join (f ∷ []) h = unfold join in fields_one is_space f h.0.0 h.0.1
fields-join (f ∷ g ∷ fs) h = rw (join_more f g fs) (
    fields_more is_space f 32 (join (g ∷ fs) (32 ∷ [])) h.0.0 h.0.1 space_separates
    ∙ ap (λ l. f ∷ l) (fields-join (g ∷ fs) h.1))

-- Collapsing changes no field.
pub prefix_fields_lem : (s : Text) → prefix_fields s ≡ fields_by is_space s
unfolding collapse
prefix_fields_lem s = fields-join (fields_by is_space s) (fields_by-IsField is_space s)

-- Collapsing twice is collapsing once.
pub collapse-collapse : (s : Text) → collapse (collapse s) ≡ collapse s
unfolding collapse
collapse-collapse s = ap (λ fs. join fs (32 ∷ [])) (prefix_fields_lem s)

pub prefix_fields-IsWord : (s : Text) → All IsWord (prefix_fields s)
prefix_fields-IsWord s = fields_by-IsField is_space (collapse s)

pub with_colon-IsWord :
    (name : Text) → All (λ c. is_space c ≡ false) name → IsWord (name ++ b':' ∷ [])
with_colon-IsWord name h = (not_nil name, All-append _ name (b':' ∷ []) h (colon_stays, tt))
  where
    not_nil : (s : Text) → s ++ b':' ∷ [] ≢ []
    not_nil [] = λ e. absurd (cc)
    not_nil (c ∷ s) = λ e. absurd (cc)

fields_declaration :
    (name url : Text)
    → All (λ c. is_space c ≡ false) name
    → IsWord url
    → fields_by is_space (name ++ b':' ∷ 32 ∷ url) ≡ (name ++ b':' ∷ []) ∷ url ∷ []
fields_declaration name url h k =
    let w = with_colon-IsWord name h in
    ap (fields_by is_space) (sym (append_assoc name (b':' ∷ []) (32 ∷ url)))
    ∙ fields_more is_space (name ++ b':' ∷ []) 32 url w.0 w.1 space_separates
    ∙ ap (λ l. (name ++ b':' ∷ []) ∷ l) (fields_one is_space url k.0 k.1)

after_declaration :
    (fs : List Text) (existing decl : Text)
    → All IsWord fs
    → existing ≡ join fs (32 ∷ [])
    → fields_by is_space (with_declaration existing decl) ≡ fs ++ fields_by is_space decl
after_declaration fs [] decl h e =
    let none_yet : fs ≡ [] =
      sym (fields-join fs h) ∙ ap (fields_by is_space) (sym e) ∙ fields_none is_space in
    rw none_yet refl
after_declaration fs (c ∷ s) decl h e =
    ap (λ x. fields_by is_space (x ++ 32 ∷ decl)) e ∙ fields-join_rest fs decl h

-- A declaration adds its two fields behind those that were there.
pub prefix_fields-declared :
    (raw name url : Text)
    → All (λ c. is_space c ≡ false) name
    → IsWord url
    → prefix_fields (declared raw name url) ≡ prefix_fields raw ++ (name ++ b':' ∷ []) ∷ url ∷ []
prefix_fields-declared raw name url h k =
    prefix_fields_lem (declared raw name url)
    ∙ after_declaration (prefix_fields raw) (collapse raw) (name ++ b':' ∷ 32 ∷ url)
        (prefix_fields-IsWord raw)
        (sym (unfold collapse in ap (λ fs. join fs (32 ∷ [])) (prefix_fields_lem raw)))
    ∙ ap (λ l. prefix_fields raw ++ l) (fields_declaration name url h k)
