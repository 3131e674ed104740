-- ===== src/Epub/Opf/Subjects/Claims.antt =====
-- The loop of `set` in field_subjects.go: each subject claims the element that holds it, or a new one.
use ebookfs.Common.{
  ℕ, ◌==◌, ==_iff, ◌≡◌, refl, sym, ap, ◌∙◌, subst, true, false, not, ◌||◌, List, [], ◌∷◌, ◌++◌,
  append_assoc, append-nil, map, none, some, arith, Text, text_eq_iff, codes, contains, without,
  nat_comparable, text_comparable, contains-append, contains-keep, keep-append, Bool-cases, inl,
  inr, Dict, get,
}
use ebookfs.Epub.Vocab.{collapse}
use ebookfs.Epub.Dom.{Etree, Doc}
use ebookfs.Epub.Dom.Shows.{EtreeLaws, at}
use ebookfs.Epub.Slots.{dc_slot, place, slot_set}
use ebookfs.Epub.Slots.Dc.{IsDc, without_absent}
use ebookfs.Epub.Slots.Holds.{Holds, place-Holds, set_new-Holds}
use ebookfs.Epub.Opf.Subjects.{claim}

abbrev pub subject : Text
subject = codes "subject"

-- `rest` is not claimed yet, and the elements behind it are the subjects that are done.
pub record Claimed {T : Type 0} (x : Etree T) (d : Doc) (by_text : Dict Text ℕ) (t : T)
    (rest : List ℕ) (done : List Text) : Type 0 where
  pub placed : List ℕ
  pub text : ℕ → Text
  pub holds : Holds x d subject t (rest ++ placed) text
  pub texts : map (λ e. collapse (text e)) placed ≡ done
  pub apart : (e : ℕ) → contains placed e ≡ true → contains rest e ≡ false
  pub known :
      (v : Text) (e : ℕ)
      → get by_text v ≡ some e
      → (contains (rest ++ placed) e ≡ true) × (collapse (text e) ≡ v)

contains-map :
    (f : ℕ → Text) (es : List ℕ) (e : ℕ) → contains es e ≡ true → contains (map f es) (f e) ≡ true
contains-map f [] e h = absurd (cc)
contains-map f (k ∷ es) e h = elim (Bool-cases (k == e)) [
  | inl same_node ↦
      let k_is_e : k ≡ e = (==_iff k e).0 same_node in
      rw (k_is_e, (text_eq_iff (f e) (f e)).1 refl) refl
  | inr other ↦ ground (arith, contains-map f es e)
]

map_at :
    (text : ℕ → Text) (es : List ℕ) (e : ℕ) (v : Text)
    → contains es e ≡ false
    → map (λ m. collapse (at text e v m)) es ≡ map (λ m. collapse (text m)) es
map_at text [] e v h = refl
map_at text (k ∷ es) e v h =
    let other : (e == k) ≡ false = ground (arith, ==_iff e k, ==_iff k e) in
    rw other (ap (λ l. collapse (text k) ∷ l) (map_at text es e v (ground arith)))

map-append : (f : ℕ → Text) (es : List ℕ) (e : ℕ) → map f (es ++ e ∷ []) ≡ map f es ++ f e ∷ []
map-append f [] e = refl
map-append f (k ∷ es) e = ap (λ l. f k ∷ l) (map-append f es e)

without-append :
    (rest placed : List ℕ) (e : ℕ)
    → contains placed e ≡ false
    → without (rest ++ placed) e ++ e ∷ [] ≡ without rest e ++ (placed ++ e ∷ [])
without-append rest placed e h =
    ap (λ l. l ++ e ∷ [])
      (keep-append (λ m. not (m == e)) rest placed
        ∙ ap (λ l. without rest e ++ l) (without_absent placed e h))
    ∙ append_assoc (without rest e) placed (e ∷ [])

last_again :
    (es : List ℕ) (e : ℕ)
    → contains es e ≡ false
    → without (es ++ e ∷ []) e ++ e ∷ [] ≡ es ++ e ∷ []
last_again es e h =
    ap (λ l. l ++ e ∷ []) (keep-append (λ m. not (m == e)) es (e ∷ []))
    ∙ rw ((==_iff e e).1 refl, without_absent es e h) (ap (λ l. l ++ e ∷ []) (append-nil es))

-- an element that one list has and another lacks is another
other_node :
    (es : List ℕ) (e m : ℕ) → contains es e ≡ false → contains es m ≡ true → (e == m) ≡ false
other_node es e m h k = elim (Bool-cases (e == m)) [
  | inr o ↦ o
  | inl o ↦ absurd (cc ((==_iff e m).0 o))
]

module _ {T : Type 0} (x : Etree T) (laws : EtreeLaws x) (d : Doc) (plain : IsDc subject)
    (by_text : Dict Text ℕ) where
  not_placed :
      {t : T} {rest : List ℕ} {done : List Text} (c : Claimed x d by_text t rest done)
      → (v : Text) (e : ℕ) → get by_text v ≡ some e
      → contains done v ≡ false
      → contains c.placed e ≡ false
  not_placed c v e found new = elim (Bool-cases (contains c.placed e)) [
    | inr free ↦ free
    | inl inside ↦ absurd (
        cc (
          contains-map (λ m. collapse (c.text m)) c.placed e inside,
          c.texts,
          (c.known v e found).1,
        ))
  ]

  pub claim_old :
      {t : T} {rest : List ℕ} {done : List Text} (v : Text) (e : ℕ)
      → get by_text v ≡ some e
      → contains done v ≡ false
      → Claimed x d by_text t rest done
      → Claimed x d by_text
          (place x d t (dc_slot subject (some e))).1
          (without rest e)
          (done ++ v ∷ [])
  claim_old {t} {rest} {done} v e found new c =
      let free = not_placed c v e found new in
      let (inside, holds_v) = c.known v e found in
      record {
        placed = c.placed ++ e ∷ [];
        text = c.text;
        holds =
            subst (λ es. Holds x d subject (place x d t (dc_slot subject (some e))).1 es c.text)
              (without-append rest c.placed e free)
              (place-Holds x laws d subject plain e inside c.holds);
        texts = map-append (λ m. collapse (c.text m)) c.placed e ∙ rw (c.texts, holds_v) refl;
        apart = λ m k.
            contains-keep (λ m. not (m == e)) rest m
            ∙ ground
                (arith, contains-append c.placed (e ∷ []) m, c.apart m, ==_iff e m, ==_iff m e);
        known = λ w m k.
            let (there, is_w) = c.known w m k in
            (
              contains-append (without rest e) (c.placed ++ e ∷ []) m
                  ∙ ground (
                    arith,
                    contains-append c.placed (e ∷ []) m,
                    contains-keep (λ m. not (m == e)) rest m,
                    contains-append rest c.placed m,
                    ==_iff e m,
                    ==_iff m e,
                  ),
              is_w,
            );
      }

  pub claim_new :
      {t : T} {rest : List ℕ} {done : List Text} (v : Text)
      → collapse v ≡ v
      → Claimed x d by_text t rest done
      → Claimed x d by_text (claim x d t v rest none).0 (claim x d t v rest none).1 (done ++ v ∷ [])
  claim_new {t} {rest} {done} v clean c =
      let (e, bound, absent, made) = set_new-Holds x laws d subject plain v c.holds in
      let t1 = (slot_set x d t (dc_slot subject none) v).1 in
      let apart_both : (contains rest e || contains c.placed e) ≡ false =
        sym (contains-append rest c.placed e) ∙ absent in
      let here : contains ((rest ++ c.placed) ++ e ∷ []) e ≡ true =
        contains-append (rest ++ c.placed) (e ∷ []) e ∙ ground (arith, ==_iff e e) in
      rw bound (record {
        placed = c.placed ++ e ∷ [];
        text = at c.text e v;
        holds =
            subst
              (λ es.
                Holds x d subject (place x d t1 (dc_slot subject (some e))).1 es (at c.text e v))
              (last_again (rest ++ c.placed) e absent ∙ append_assoc rest c.placed (e ∷ []))
              (place-Holds x laws d subject plain e here made);
        texts =
            map-append (λ m. collapse (at c.text e v m)) c.placed e
            ∙ rw (map_at c.text c.placed e v (ground arith), c.texts, (==_iff e e).1 refl, clean)
                refl;
        apart = λ m k. elim (Bool-cases (e == m)) [
          | inl o ↦ rw (← (==_iff e m).0 o) (ground arith)
          | inr o ↦ c.apart m (ground (arith, contains-append c.placed (e ∷ []) m))
        ];
        known = λ w m k.
            let (there, is_w) = c.known w m k in
            (
              contains-append rest (c.placed ++ e ∷ []) m
                  ∙ ground
                      (arith, contains-append c.placed (e ∷ []) m, contains-append rest c.placed m),
              rw (other_node (rest ++ c.placed) e m absent there) is_w,
            );
      })
