-- ===== src/Period/Tests.antt =====
-- The period of a report at concrete dates.
use expense_saas.Prelude.{ℕ, some, false, List, [], ◌∷◌, ◌++◌, ◌||◌, ◌&&◌, not, ◌≡◌, refl, arith}
use expense_saas.Period.{is_outside_period, lt_text, slice}
use expense_saas.Period.Order.{Date, Fits, earlier, iso_date, is_outside_period-iso_date}

abbrev first : Date
first = record { year = 2026; month = 4; day = 1 }

abbrev last : Date
last = record { year = 2026; month = 4; day = 30 }

abbrev late : Date
late = record { year = 2026; month = 5; day = 1 }

abbrev time : List ℕ
time = b'T' ∷ b'0' ∷ []

first-Fits : Fits first
first-Fits = record { year = omega arith; month = omega arith; day = omega arith }

last-Fits : Fits last
last-Fits = record { year = omega arith; month = omega arith; day = omega arith }

late-Fits : Fits late
late-Fits = record { year = omega arith; month = omega arith; day = omega arith }

last_inside :
    is_outside_period false (some (iso_date first)) (some (iso_date last)) (iso_date last) ≡ false
unfolding is_outside_period iso_date lt_text slice
last_inside = refl

is_outside_period-iso_date_example :
    is_outside_period false
      (some (iso_date first ++ time))
      (some (iso_date last ++ []))
      (iso_date late)
    ≡ not false && (earlier late first || earlier last late)
is_outside_period-iso_date_example =
    is_outside_period-iso_date false first last late time [] first-Fits last-Fits late-Fits
