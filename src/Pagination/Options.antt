-- ===== src/Pagination/Options.antt =====
-- PageSizeSelector.tsx: the options.
use expense_saas.Prelude.{
  ℕ, Bool, true, false, List, [], ◌∷◌, ◌++◌, ◌==◌, ◌||◌, ◌&&◌, ltb, ◌≡◌, arith, refl,
}
use expense_saas.Pagination.{insert, sort_unique, page_sizes}

unfoldable pub member : ℕ → List ℕ → Bool
member k [] = false
member k (x ∷ xs) = let rest = member k xs in k == x || rest

-- Every value is greater than the one before it, so that none stands twice.
unfoldable pub above : ℕ → List ℕ → Bool
above x [] = true
above x (y ∷ ys) = ltb x y && above y ys

abbrev pub is_ascending : List ℕ → Bool
is_ascending [] = true
is_ascending (x ∷ xs) = above x xs

member-insert : (k x : ℕ) (xs : List ℕ) → member k (insert x xs) ≡ k == x || member k xs
unfolding member insert
member-insert k x [] = refl
member-insert k x (y ∷ ys) = ground (arith, member-insert k x ys)

above-insert :
    (b x : ℕ) (xs : List ℕ) → above b xs ≡ true → ltb b x ≡ true → above b (insert x xs) ≡ true
unfolding above insert
above-insert b x [] h lt = ground (arith, lt)
above-insert b x (y ∷ ys) h lt = ground (arith, h, lt, above-insert y x ys)

insert-ascending :
    (x : ℕ) (xs : List ℕ) → is_ascending xs ≡ true → is_ascending (insert x xs) ≡ true
unfolding above insert
insert-ascending x [] h = refl
insert-ascending x (y ∷ ys) h = ground (arith, h, above-insert y x ys)

sort_unique-ascending : (xs : List ℕ) → is_ascending (sort_unique xs) ≡ true
unfolding sort_unique
sort_unique-ascending [] = refl
sort_unique-ascending (x ∷ xs) = insert-ascending x (sort_unique xs) (sort_unique-ascending xs)

member-sort_unique : (k : ℕ) (xs : List ℕ) → member k (sort_unique xs) ≡ member k xs
unfolding sort_unique member
member-sort_unique k [] = refl
member-sort_unique k (x ∷ xs) =
    ground (arith, member-insert k x (sort_unique xs), member-sort_unique k xs)

member-append : (k x : ℕ) (xs : List ℕ) → member k (xs ++ x ∷ []) ≡ member k xs || k == x
unfolding member
member-append k x [] = ground arith
member-append k x (y ∷ ys) = ground (arith, member-append k x ys)

-- The options are in ascending order, each value once, and they are the standard ones and the page
-- size of the URL, whatever it is.
page_sizes-options :
    (standard : List ℕ) (per_page k : ℕ)
    → (is_ascending (page_sizes standard per_page) ≡ true)
      × (member k (page_sizes standard per_page) ≡ member k standard || k == per_page)
unfolding page_sizes
page_sizes-options standard n k =
    let all_sizes = standard ++ n ∷ [] in
    (
      sort_unique-ascending all_sizes,
      ground (arith, member-sort_unique k all_sizes, member-append k n standard),
    )
