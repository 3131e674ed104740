-- ===== src/Common/Slices.antt =====
-- Lists cut at a position, and the last entries of a list: what the ring buffer of a command log needs.
use ebookfs.Common.{
  ℕ, zero, suc, ◌+◌, ◌-◌, ◌≤◌, ◌<◌, ◌≡◌, refl, sym, ap, ◌∙◌, List, [], ◌∷◌, ◌++◌, arith, length,
  length-append, length-drop, set, take, drop,
}

-- the last `n` of a list
abbrev pub last_of {ℓ} : {A : Type ℓ} → ℕ → List A → List A
last_of n h = drop (length h - n) h

-- a list cut at a position that it has
pub split_at {ℓ} :
    {A : Type ℓ} (n : ℕ) (xs : List A)
    → n < length xs
    → (a : List A) × (x : A) × (b : List A) × (xs ≡ a ++ x ∷ b) × (length a ≡ n)
split_at n [] h = absurd (omega arith)
split_at zero (x ∷ xs) h = ([], x, xs, refl, refl)
split_at (suc n) (y ∷ xs) h =
    let (a, x, b, e, l) = split_at n xs (omega arith) in
    (y ∷ a, x, b, ap (λ t. y ∷ t) e, omega arith)

pub set_at {ℓ} :
    {A : Type ℓ} (a : List A) (x : A) (b : List A) (v : A)
    → set (a ++ x ∷ b) (length a) v ≡ a ++ v ∷ b
set_at [] x b v = refl
set_at (y ∷ a) x b v = ap (λ t. y ∷ t) (set_at a x b v)

pub take_past {ℓ} :
    {A : Type ℓ} (a : List A) (x : A) (b : List A) → take (length a + 1) (a ++ x ∷ b) ≡ a ++ x ∷ []
take_past [] x b = refl
take_past (y ∷ a) x b =
    let e : suc (length a) + 1 ≡ suc (length a + 1) = omega arith in
    rw e (ap (λ t. y ∷ t) (take_past a x b))

pub drop_past {ℓ} :
    {A : Type ℓ} (a : List A) (x : A) (b : List A) → drop (length a + 1) (a ++ x ∷ b) ≡ b
drop_past [] x b = refl
drop_past (y ∷ a) x b =
    let e : suc (length a) + 1 ≡ suc (length a + 1) = omega arith in rw e (drop_past a x b)

pub last_of_short {ℓ} : {A : Type ℓ} (n : ℕ) (h : List A) → length h ≤ n → last_of n h ≡ h
last_of_short n h k = let e : length h - n ≡ 0 = omega arith in rw e refl

pub last_of_one {ℓ} :
    {A : Type ℓ} (n : ℕ) (x : A) (h : List A) → length h ≡ n → last_of n (x ∷ h) ≡ h
last_of_one n x h k = let e : suc (length h) - n ≡ 1 = omega arith in rw e refl

drop-append {ℓ} :
    {A : Type ℓ} (n : ℕ) (xs ys : List A) → n ≤ length xs → drop n (xs ++ ys) ≡ drop n xs ++ ys
drop-append zero xs ys h = refl
drop-append (suc n) [] ys h = absurd (omega arith)
drop-append (suc n) (x ∷ xs) ys h = drop-append n xs ys (omega arith)

drop_none {ℓ} : {A : Type ℓ} (n : ℕ) → drop n (let xs : List A = [] in xs) ≡ []
drop_none zero = refl
drop_none (suc n) = refl

drop-drop {ℓ} : {A : Type ℓ} (n m : ℕ) (xs : List A) → drop m (drop n xs) ≡ drop (n + m) xs
drop-drop zero m xs = let e : 0 + m ≡ m = omega arith in rw e refl
drop-drop (suc n) m [] = drop_none m ∙ sym (drop_none (suc n + m))
drop-drop (suc n) m (x ∷ xs) =
    let e : suc n + m ≡ suc (n + m) = omega arith in rw e (drop-drop n m xs)

-- cutting down before adding an entry makes no difference
pub last_of_again {ℓ} :
    {A : Type ℓ} (n : ℕ) (h : List A) (e : A)
    → 0 < n
    → last_of n (last_of n h ++ e ∷ []) ≡ last_of n (h ++ e ∷ [])
last_of_again n h e k =
    let g = drop (length h - n) h in
    let size : length g ≡ length h - (length h - n) = length-drop (length h - n) h in
    let left : length (g ++ e ∷ []) - n ≡ length g + 1 - n =
      omega (arith, length-append g (e ∷ [])) in
    let right : length (h ++ e ∷ []) - n ≡ length h + 1 - n =
      omega (arith, length-append h (e ∷ [])) in
    let total : length h - n + (length g + 1 - n) ≡ length h + 1 - n = omega (arith, size) in
    rw (
      left,
      right,
      drop-append (length g + 1 - n) g (e ∷ []) (omega arith),
      drop-append (length h + 1 - n) h (e ∷ []) (omega arith),
      drop-drop (length h - n) (length g + 1 - n) h,
      total,
    )
