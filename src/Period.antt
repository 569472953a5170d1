-- ===== src/Period.antt =====
-- frontend/src/pages/reports/ItemForm.tsx: whether the date of an item lies outside the period of
-- its report. A text is the list of its UTF-16 code units, which `<` compares in order.
pub mod Order
mod Tests
use expense_saas.Prelude.{
  ℕ, zero, suc, Option, none, some, Bool, true, false, List, [], ◌∷◌, ltb, ◌||◌, ◌&&◌,
  if◌then◌else◌,
}

-- `a < b` on texts.
unfoldable pub lt_text : List ℕ → List ℕ → Bool
lt_text [] [] = false
lt_text [] (_ ∷ _) = true
lt_text (_ ∷ _) [] = false
lt_text (a ∷ s) (b ∷ t) =
    let rest = lt_text s t in if ltb a b then true else if ltb b a then false else rest

-- `s.slice(0, n)`
unfoldable pub slice : ℕ → List ℕ → List ℕ
slice zero s = []
slice (suc n) [] = []
slice (suc n) (a ∷ s) = a ∷ slice n s

-- A text that is missing or empty counts as false.
abbrev pub is_empty : List ℕ → Bool
is_empty [] = true
is_empty (_ ∷ _) = false

abbrev pub is_missing : Option (List ℕ) → Bool
is_missing none = true
is_missing (some s) = is_empty s

abbrev text_or : Option (List ℕ) → List ℕ
text_or none = []
text_or (some s) = s

-- isOutsidePeriod; the period may carry a time of day behind its first ten characters.
unfoldable pub is_outside_period :
    (is_view : Bool) (start end : Option (List ℕ)) (expense_date : List ℕ) → Bool
is_outside_period is_view start end date =
    if is_view
    then false
    else if is_missing start || is_missing end || is_empty date
    then false
    else lt_text date (slice 10 (text_or start)) || lt_text (slice 10 (text_or end)) date
