-- ===== src/Epub/Opf/Subjects/RoundTrip.antt =====
-- The subjects that field_subjects.go writes are those that it reads back.
use ebookfs.Common.{
  ℕ, ==_iff, ◌≡◌, ◌≢◌, ◌⊎◌, refl, sym, ap, ◌∙◌, subst, true, false, not, List, [], ◌∷◌, ◌++◌,
  append_assoc, append-nil, map, Option, none, some, arith, if◌then◌else◌, Text, text_eq,
  text_eq_iff, keep, any, contains, without, nat_comparable, text_comparable, contains-append,
  keep-append, Bool-cases, inl, inr, All, Dict, get, get-put, get-nil,
}
use ebookfs.Book.Validation.FirstRepeat.{Distinct}
use ebookfs.Epub.Vocab.{collapse}
use ebookfs.Epub.Dom.{Etree, Doc, text_of, is_wrapper, children}
use ebookfs.Epub.Dom.Shows.{EtreeLaws, Shows-self, children_lem}
use ebookfs.Epub.Slots.{dc_slot, slot_remove}
use ebookfs.Epub.Slots.Dc.{IsDc}
use ebookfs.Epub.Slots.Holds.{Holds, remove-Holds, children-Holds, text_of-Holds}
use ebookfs.Epub.Opf.Subjects.{
  see, first_by_text, claim, claim_all, remove_all, subjects_get, subjects_set,
}
use ebookfs.Epub.Opf.Subjects.Claims.{subject, Claimed, claim_old, claim_new}

-- what a subject is once it is written: some text, with its whitespace collapsed
abbrev pub AreClean : List Text → Type 0
AreClean = All (λ v. (v ≢ []) × (collapse v ≡ v))

abbrev Apart : List Text → List Text → Type 0
Apart done vs = All (λ v. contains done v ≡ false) vs

Apart-append :
    (done : List Text) (v : Text) (vs : List Text)
    → contains vs v ≡ false
    → Apart done vs
    → Apart (done ++ v ∷ []) vs
Apart-append done v [] h k = tt
Apart-append done v (w ∷ vs) h k = (
  contains-append done (v ∷ []) w ∙ ground (arith, text_eq_iff v w, text_eq_iff w v, k.0),
  Apart-append done v vs (ground arith) k.1,
)

subject-IsDc : IsDc subject
subject-IsDc = record { no_meta = refl; no_wrapper = refl }

-- an entry of `byText` is an element of the list with that text
first_by_text-known :
    {T : Type 0} (x : Etree T) (d : Doc) (t : T) (m : Dict Text ℕ) (es all : List ℕ)
    → ((v : Text) (e : ℕ) → get m v ≡ some e → (contains all e ≡ true) × (text_of x t e ≡ v))
    → All (λ e. contains all e ≡ true) es
    → (v : Text) (e : ℕ) → get (first_by_text x d t m es) v ≡ some e
    → (contains all e ≡ true) × (text_of x t e ≡ v)
first_by_text-known x d t m [] all h k = h
first_by_text-known x d t m (i ∷ es) all h k =
    first_by_text-known x d t (see x d m (text_of x t i) (get m (text_of x t i)) i) es all
      (λ v e. see_known (text_of x t i) (get m (text_of x t i)) v e refl) k.1
  where
    one_node : {a b : ℕ} → some a ≡ some b → a ≡ b
    one_node p = cc

    put_known :
        (c : ℕ) (s v : Text) (e : ℕ)
        → text_of x t i ≡ c ∷ s
        → (if text_eq (c ∷ s) v then some i else get m v) ≡ some e
        → (text_eq (c ∷ s) v ≡ true) ⊎ (text_eq (c ∷ s) v ≡ false)
        → (contains all e ≡ true) × (text_of x t e ≡ v)
    put_known c s v e is_s g (inl q) =
        let node : i ≡ e = one_node (ap (λ b. if b then some i else get m v) (sym q) ∙ g) in
        (
          subst (λ n. contains all n ≡ true) node k.0,
          ap (text_of x t) (sym node) ∙ is_s ∙ (text_eq_iff (c ∷ s) v).0 q,
        )
    put_known c s v e is_s g (inr q) = h v e (ap (λ b. if b then some i else get m v) (sym q) ∙ g)

    see_known :
        (s : Text) (o : Option ℕ) (v : Text) (e : ℕ)
        → text_of x t i ≡ s
        → get (see x d m s o i) v ≡ some e
        → (contains all e ≡ true) × (text_of x t e ≡ v)
    see_known [] o v e is_s g = h v e g
    see_known (c ∷ s) (some other) v e is_s g = h v e g
    see_known (c ∷ s) none v e is_s g =
        put_known c s v e is_s (sym (get-put m (c ∷ s) i v) ∙ g) (Bool-cases (text_eq (c ∷ s) v))

contains_each :
    (es all : List ℕ)
    → ((e : ℕ) → contains es e ≡ true → contains all e ≡ true)
    → All (λ e. contains all e ≡ true) es
contains_each [] all h = tt
contains_each (i ∷ es) all h =
    (h i (ground (arith, ==_iff i i)), contains_each es all (λ e k. h e (ground arith)))

keep_absent :
    (rest es : List ℕ)
    → ((e : ℕ) → contains es e ≡ true → contains rest e ≡ false)
    → keep (λ e. not (contains rest e)) es ≡ es
keep_absent rest [] h = refl
keep_absent rest (i ∷ es) h =
    rw (h i (ground (arith, ==_iff i i)))
      (ap (λ l. i ∷ l) (keep_absent rest es (λ e k. h e (ground arith))))

keep_present :
    (rest es : List ℕ)
    → ((e : ℕ) → contains es e ≡ true → contains rest e ≡ true)
    → keep (λ e. not (contains rest e)) es ≡ []
keep_present rest [] h = refl
keep_present rest (i ∷ es) h =
    rw (h i (ground (arith, ==_iff i i))) (keep_present rest es (λ e k. h e (ground arith)))

keep_twice :
    (i : ℕ) (ms es : List ℕ)
    → keep (λ e. not (contains ms e)) (without es i) ≡ keep (λ e. not (contains (i ∷ ms) e)) es
keep_twice i ms [] = refl
keep_twice i ms (e ∷ es) = ground (arith, keep_twice i ms es, ==_iff i e, ==_iff e i)

keep_filled : (vs : List Text) → AreClean vs → keep (λ v. not (text_eq v [])) vs ≡ vs
keep_filled [] h = refl
keep_filled ([] ∷ vs) h = absurd (h.0.0 refl)
keep_filled ((c ∷ v) ∷ vs) h = ap (λ l. (c ∷ v) ∷ l) (keep_filled vs h.1)

map_texts : (f g : ℕ → Text) (es : List ℕ) → ((e : ℕ) → f e ≡ g e) → map f es ≡ map g es
map_texts f g [] h = refl
map_texts f g (e ∷ es) h = rw (h e, map_texts f g es h) refl

module _ {T : Type 0} (x : Etree T) (laws : EtreeLaws x) (d : Doc) where
  claim_step :
      (by_text : Dict Text ℕ) (t : T) (rest : List ℕ) (done : List Text) (v : Text) (o : Option ℕ)
      → get by_text v ≡ o
      → contains done v ≡ false
      → collapse v ≡ v
      → Claimed x d by_text t rest done
      → Claimed x d by_text (claim x d t v rest o).0 (claim x d t v rest o).1 (done ++ v ∷ [])
  claim_step by_text t rest done v none found new clean c =
      claim_new x laws d subject-IsDc by_text v clean c
  claim_step by_text t rest done v (some e) found new clean c =
      claim_old x laws d subject-IsDc by_text v e found new c

  claim_all-Claimed :
      (by_text : Dict Text ℕ) (vs : List Text) (t : T) (rest : List ℕ) (done : List Text)
      → AreClean vs
      → Distinct vs
      → Apart done vs
      → Claimed x d by_text t rest done
      → Claimed x d by_text
          (claim_all x d by_text t vs rest).0
          (claim_all x d by_text t vs rest).1
          (done ++ vs)
  claim_all-Claimed by_text [] t rest done clean distinct apart c = rw (append-nil done) c
  claim_all-Claimed by_text (v ∷ vs) t rest done clean distinct apart c =
      subst
        (λ l.
          Claimed x d by_text (claim_all x d by_text t (v ∷ vs) rest).0
            (claim_all x d by_text t (v ∷ vs) rest).1 l)
        (append_assoc done (v ∷ []) vs)
        (claim_all-Claimed by_text vs (claim x d t v rest (get by_text v)).0
          (claim x d t v rest (get by_text v)).1 (done ++ v ∷ []) clean.1 distinct.1
          (Apart-append done v vs distinct.0 apart.1)
          (claim_step by_text t rest done v (get by_text v) refl apart.0 clean.0.1 c))

  remove_all-Holds :
      (ms : List ℕ) (t : T) (els : List ℕ) (text : ℕ → Text)
      → Holds x d subject t els text
      → Holds x d subject (remove_all x d t ms) (keep (λ e. not (contains ms e)) els) text
  remove_all-Holds [] t els text h = rw (keep_absent [] els (λ e k. refl)) h
  remove_all-Holds (i ∷ ms) t els text h =
      subst
        (λ es.
          Holds x d subject (remove_all x d (slot_remove x d t (dc_slot subject (some i))) ms) es
            text)
        (keep_twice i ms els)
        (remove_all-Holds ms (slot_remove x d t (dc_slot subject (some i))) (without els i) text
          (remove-Holds x laws d subject subject-IsDc i h))

  get_after_claims :
      (by_text : Dict Text ℕ) (t : T) (rest : List ℕ) (vs : List Text)
      → AreClean vs
      → Claimed x d by_text t rest vs
      → subjects_get x d (remove_all x d t rest) ≡ vs
  unfolding subjects_get
  get_after_claims by_text t rest vs clean c =
      let after = remove_all-Holds rest t (rest ++ c.placed) c.text c.holds in
      let left : keep (λ e. not (contains rest e)) (rest ++ c.placed) ≡ c.placed =
        keep-append (λ e. not (contains rest e)) rest c.placed
        ∙ rw (keep_present rest rest (λ e k. k), keep_absent rest c.placed c.apart) refl in
      rw (children-Holds x laws d subject subject-IsDc after, left)
        (ap (keep (λ v. not (text_eq v []))) (
            map_texts (text_of x (remove_all x d t rest)) (λ e. collapse (c.text e)) c.placed
              (text_of-Holds x laws d subject subject-IsDc after)
            ∙ c.texts)
          ∙ keep_filled vs clean)

  pub subjects_get-subjects_set :
      (t : T) (subjects : List Text)
      → any (is_wrapper x t) (x.child_elements t d.md) ≡ false
      → AreClean subjects
      → Distinct subjects
      → subjects_get x d (subjects_set x d t subjects) ≡ subjects
  unfolding subjects_set
  subjects_get-subjects_set t subjects plain clean distinct =
      let els = children x d t subject in
      let by_text = first_by_text x d t [] els in
      let start : Claimed x d by_text t els [] = record {
        placed = [];
        text = x.text t;
        holds = record {
          kids = x.child_elements t d.md;
          tag = x.tag t;
          lists = record {
            shows = Shows-self x d t;
            unwrapped = plain;
            els_lem =
                sym (children_lem x laws d (Shows-self x d t) subject plain) ∙ sym (append-nil els);
          };
        };
        texts = refl;
        apart = λ e k. absurd (cc);
        known = λ v e g.
            let (a, b) =
              first_by_text-known x d t [] els (els ++ []) (λ v e k. absurd (cc (get-nil v)))
                (rw (append-nil els) (contains_each els els (λ e k. k))) v e g in
            (a, b);
      } in
      get_after_claims by_text (claim_all x d by_text t subjects els).0
        (claim_all x d by_text t subjects els).1 subjects clean
        (claim_all-Claimed by_text subjects t els [] clean distinct (none_done subjects) start)
    where
      none_done : (vs : List Text) → Apart [] vs
      none_done [] = tt
      none_done (v ∷ vs) = (refl, none_done vs)
