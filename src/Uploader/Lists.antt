-- ===== src/Uploader/Lists.antt =====
-- Lists without repetitions, and maps whose keys stand in the order of a list.
use expense_saas.Prelude.{
  ℕ, zero, suc, none, some, Bool, true, false, List, [], ◌∷◌, ◌++◌, ◌==◌, ◌||◌, ◌&&◌, not, ◌≡◌, ltb,
  refl, arith, map, ap,
}
use expense_saas.Uploader.{set, get, remove, without, at, drop_at}

unfoldable pub member : ℕ → List ℕ → Bool
member k [] = false
member k (x ∷ xs) = let rest = member k xs in k == x || rest

unfoldable pub distinct : List ℕ → Bool
unfolding member
distinct [] = true
distinct (x ∷ xs) = not (member x xs) && distinct xs

unfoldable pub below : ℕ → List ℕ → Bool
below n [] = true
below n (x ∷ xs) = ltb x n && below n xs

abbrev pub keys : List (ℕ × ℕ) → List ℕ
keys m = map (λ e. e.0) m

abbrev pub values : List (ℕ × ℕ) → List ℕ
values m = map (λ e. e.1) m

pub map-append {ℓ κ} :
    {A : Type ℓ} {B : Type κ} (f : A → B) (xs ys : List A) → map f (xs ++ ys) ≡ map f xs ++ map f ys
map-append f [] ys = refl
map-append f (x ∷ xs) ys = ap (λ l. f x ∷ l) (map-append f xs ys)

pub set-fresh :
    (k u : ℕ) (m : List (ℕ × ℕ)) → member k (keys m) ≡ false → set k u m ≡ m ++ (k, u) ∷ []
unfolding set member
set-fresh k u [] h = refl
set-fresh k u ((i, v) ∷ m) h = ground (arith, h, set-fresh k u m)

member-append : (k x : ℕ) (xs : List ℕ) → member k (xs ++ x ∷ []) ≡ member k xs || k == x
unfolding member
member-append k x [] = ground arith
member-append k x (y ∷ ys) = ground (arith, member-append k x ys)

pub distinct-append :
    (x : ℕ) (xs : List ℕ)
    → distinct xs ≡ true
    → member x xs ≡ false
    → distinct (xs ++ x ∷ []) ≡ true
unfolding distinct member
distinct-append x [] d h = refl
distinct-append x (y ∷ ys) d h = ground (arith, d, h, distinct-append x ys, member-append y x ys)

pub below-append : (n : ℕ) (xs : List ℕ) → below n xs ≡ true → below (suc n) (xs ++ n ∷ []) ≡ true
unfolding below
below-append n [] h = ground arith
below-append n (x ∷ xs) h = ground (arith, h, below-append n xs)

pub below-member : (n : ℕ) (xs : List ℕ) → below n xs ≡ true → member n xs ≡ false
unfolding below member
below-member n [] h = refl
below-member n (x ∷ xs) h = ground (arith, h, below-member n xs)

pub at-map {ℓ κ} :
    {A : Type ℓ} {B : Type κ} (f : A → B) (n : ℕ) (xs : List A) (x : A)
    → at n xs ≡ some x
    → at n (map f xs) ≡ some (f x)
unfolding at
at-map f n [] x h = ground (arith, h)
at-map f zero (y ∷ ys) x h = ground (arith, h)
at-map f (suc n) (y ∷ ys) x h = at-map f n ys x h

pub drop_at-map {ℓ κ} :
    {A : Type ℓ} {B : Type κ} (f : A → B) (n : ℕ) (xs : List A)
    → map f (drop_at n xs) ≡ drop_at n (map f xs)
unfolding drop_at
drop_at-map f n [] = refl
drop_at-map f zero (y ∷ ys) = refl
drop_at-map f (suc n) (y ∷ ys) = ap (λ l. f y ∷ l) (drop_at-map f n ys)

member-drop_at : (k n : ℕ) (xs : List ℕ) → member k xs ≡ false → member k (drop_at n xs) ≡ false
unfolding member drop_at
member-drop_at k n [] h = refl
member-drop_at k zero (x ∷ xs) h = ground (arith, h)
member-drop_at k (suc n) (x ∷ xs) h = ground (arith, h, member-drop_at k n xs)

pub distinct-drop_at : (n : ℕ) (xs : List ℕ) → distinct xs ≡ true → distinct (drop_at n xs) ≡ true
unfolding distinct drop_at
distinct-drop_at n [] h = refl
distinct-drop_at zero (x ∷ xs) h = ground (arith, h)
distinct-drop_at (suc n) (x ∷ xs) h =
    ground (arith, h, distinct-drop_at n xs, member-drop_at x n xs)

pub below-drop_at : (b n : ℕ) (xs : List ℕ) → below b xs ≡ true → below b (drop_at n xs) ≡ true
unfolding below drop_at
below-drop_at b n [] h = refl
below-drop_at b zero (x ∷ xs) h = ground (arith, h)
below-drop_at b (suc n) (x ∷ xs) h = ground (arith, h, below-drop_at b n xs)

member-at : (k n : ℕ) (xs : List ℕ) → at n xs ≡ some k → member k xs ≡ true
unfolding member at
member-at k n [] h = ground (arith, h)
member-at k zero (x ∷ xs) h = ground (arith, h)
member-at k (suc n) (x ∷ xs) h = ground (arith, member-at k n xs h)

without-absent : (u : ℕ) (vs : List ℕ) → member u vs ≡ false → without u vs ≡ vs
unfolding without member
without-absent u [] h = refl
without-absent u (v ∷ vs) h = ground (arith, h, without-absent u vs)

pub without-at :
    (u n : ℕ) (vs : List ℕ) → at n vs ≡ some u → distinct vs ≡ true → without u vs ≡ drop_at n vs
unfolding without at drop_at distinct
without-at u n [] h d = refl
without-at u zero (v ∷ vs) h d = ground (arith, h, d, without-absent u vs)
without-at u (suc n) (v ∷ vs) h d = ground (arith, d, without-at u n vs h, member-at u n vs h)

remove-absent : (k : ℕ) (m : List (ℕ × ℕ)) → member k (keys m) ≡ false → remove k m ≡ m
unfolding remove member
remove-absent k [] h = refl
remove-absent k ((i, v) ∷ m) h = ground (arith, h, remove-absent k m)

pub remove-at :
    (k n : ℕ) (m : List (ℕ × ℕ))
    → at n (keys m) ≡ some k
    → distinct (keys m) ≡ true
    → remove k m ≡ drop_at n m
unfolding remove at drop_at distinct
remove-at k n [] h d = refl
remove-at k zero ((i, v) ∷ m) h d = ground (arith, h, d, remove-absent k m)
remove-at k (suc n) ((i, v) ∷ m) h d =
    ground (arith, d, remove-at k n m h, member-at k n (keys m) h)

-- The URL in the map at a key is the one that stands at the same place among the values.
pub get-at :
    (k n : ℕ) (m : List (ℕ × ℕ))
    → at n (keys m) ≡ some k
    → distinct (keys m) ≡ true
    → get k m ≡ at n (values m)
unfolding get at distinct
get-at k n [] h d = refl
get-at k zero ((i, v) ∷ m) h d = ground (arith, h)
get-at k (suc n) ((i, v) ∷ m) h d = ground (arith, d, get-at k n m h, member-at k n (keys m) h)

pub at-map-none {ℓ κ} :
    {A : Type ℓ} {B : Type κ} (f : A → B) (n : ℕ) (xs : List A)
    → at n xs ≡ none
    → at n (map f xs) ≡ none
unfolding at
at-map-none f n [] h = refl
at-map-none f zero (x ∷ xs) h = ground (arith, h)
at-map-none f (suc n) (x ∷ xs) h = at-map-none f n xs h

pub drop_at-past {ℓ κ} :
    {A : Type ℓ} {B : Type κ} (f : A → B) (n : ℕ) (xs : List A)
    → at n (map f xs) ≡ none
    → drop_at n xs ≡ xs
unfolding at drop_at
drop_at-past f n [] h = refl
drop_at-past f zero (x ∷ xs) h = ground (arith, h)
drop_at-past f (suc n) (x ∷ xs) h = ap (λ l. x ∷ l) (drop_at-past f n xs h)

pub value_at :
    (k n : ℕ) (m : List (ℕ × ℕ)) → at n (keys m) ≡ some k → (u : ℕ) × (at n (values m) ≡ some u)
unfolding at
value_at k n [] h = absurd (ground (arith, h))
value_at k zero ((i, v) ∷ m) h = (v, refl)
value_at k (suc n) ((i, v) ∷ m) h = value_at k n m h
