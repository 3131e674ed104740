-- ===== src/Epub/Opf/Persons/Groups.antt =====
-- `people` of field_contributors.go: a person has the roles of the entries of that name.
use ebookfs.Common.{
  ◌≡◌, ◌≢◌, refl, ◌∙◌, Bool, ◌&&◌, ◌||◌, List, [], ◌∷◌, map, arith, any, Text, text_eq, text_eq_iff,
  text_comparable, contains, contains-append, Bool-cases, inl, inr,
}
use ebookfs.Book.Validation.FirstRepeat.{Distinct}
use ebookfs.Epub.Opf.Persons.{OpfContributor, Person, add_role, add_person, people_from, people}

abbrev pub has_role : Text → Text → List Person → Bool
has_role name role ps = any (λ p. text_eq p.name name && contains p.roles role) ps

abbrev pub is_listed : Text → Text → List OpfContributor → Bool
is_listed name role cs = any (λ c. text_eq c.name name && text_eq c.role role) cs

abbrev pub person_names : List Person → List Text
person_names ps = map (λ p. p.name) ps

add_role-contains :
    (roles : List Text) (r role : Text)
    → role ≢ []
    → contains (add_role roles r) role ≡ (contains roles role || text_eq r role)
add_role-contains roles [] role h = ground (arith, text_eq_iff [] role)
add_role-contains roles (c ∷ r) role h = elim (Bool-cases (contains roles (c ∷ r))) [
  | inl e ↦ rw e (ground (arith, text_eq_iff (c ∷ r) role))
  | inr e ↦ rw e (contains-append roles ((c ∷ r) ∷ []) role ∙ ground arith)
]

add_person-has_role :
    (ps : List Person) (c : OpfContributor) (name role : Text)
    → role ≢ []
    → has_role name role (add_person ps c)
      ≡ (has_role name role ps || (text_eq c.name name && text_eq c.role role))
add_person-has_role [] c name role h = ground (arith, add_role-contains [] c.role role)
add_person-has_role (p ∷ ps) c name role h = elim (Bool-cases (text_eq p.name c.name)) [
  | inl e ↦ rw e (
      ground (
        arith,
        add_role-contains p.roles c.role role,
        text_eq_iff p.name c.name,
        text_eq_iff p.name name,
        text_eq_iff c.name name,
      ))
  | inr e ↦ rw e (ground (arith, add_person-has_role ps c name role))
]

add_person-names :
    (ps : List Person) (c : OpfContributor) (name : Text)
    → contains (person_names (add_person ps c)) name
      ≡ (contains (person_names ps) name || text_eq c.name name)
add_person-names [] c name = ground arith
add_person-names (p ∷ ps) c name = elim (Bool-cases (text_eq p.name c.name)) [
  | inl e ↦
      rw e (
        ground (arith, text_eq_iff p.name c.name, text_eq_iff p.name name, text_eq_iff c.name name))
  | inr e ↦ rw e (ground (arith, add_person-names ps c name))
]

add_person-Distinct :
    (ps : List Person) (c : OpfContributor)
    → Distinct (person_names ps)
    → Distinct (person_names (add_person ps c))
add_person-Distinct [] c h = (refl, tt)
add_person-Distinct (p ∷ ps) c h = elim (Bool-cases (text_eq p.name c.name)) [
  | inl e ↦ rw e h
  | inr e ↦ rw e (
    add_person-names ps c p.name
        ∙ ground (arith, text_eq_iff p.name c.name, text_eq_iff c.name p.name),
    add_person-Distinct ps c h.1,
  )
]

people_from-groups :
    (ps : List Person) (cs : List OpfContributor) (name role : Text)
    → role ≢ []
    → Distinct (person_names ps)
    → Distinct (person_names (people_from ps cs))
      × (has_role name role (people_from ps cs) ≡ (has_role name role ps || is_listed name role cs))
people_from-groups ps [] name role h k = (k, ground arith)
people_from-groups ps (c ∷ cs) name role h k =
    let (distinct, roles) =
      people_from-groups (add_person ps c) cs name role h (add_person-Distinct ps c k) in
    (distinct, roles ∙ rw (add_person-has_role ps c name role h) (ground arith))

-- No two persons have one name, and a person has a role exactly where an entry of that name has it.
pub people-groups :
    (contributors : List OpfContributor) (name role : Text)
    → role ≢ []
    → Distinct (person_names (people contributors))
      × (has_role name role (people contributors) ≡ is_listed name role contributors)
unfolding people
people-groups contributors name role h = people_from-groups [] contributors name role h tt
