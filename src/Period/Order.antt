-- ===== src/Period/Order.antt =====
-- The order of dates and the order of their texts.
use expense_saas.Prelude.{
  ℕ, some, Bool, true, false, List, [], ◌∷◌, ◌++◌, ltb, ◌||◌, ◌&&◌, ◌==◌, ◌+◌, ◌/◌, ◌%◌, ◌<◌, ◌≡◌,
  refl, arith, if◌then◌else◌, not,
}
use expense_saas.Period.{lt_text, slice, is_outside_period, is_empty}

pub record Date : Type 0 where
  pub year : ℕ
  pub month : ℕ
  pub day : ℕ

-- The numbers fit the digits of YYYY-MM-DD.
pub record Fits (d : Date) : Type 0 where
  pub year : d.year < 10000
  pub month : d.month < 100
  pub day : d.day < 100

-- One date comes before another in the calendar.
unfoldable pub earlier : Date → Date → Bool
earlier a b =
    ltb a.year b.year
    || (a.year == b.year && (ltb a.month b.month || (a.month == b.month && ltb a.day b.day)))

abbrev digit : ℕ → ℕ
digit n = b'0' + n % 10

abbrev day_text : Date → List ℕ
day_text d = digit (d.day / 10) ∷ digit d.day ∷ []

abbrev month_text : Date → List ℕ
month_text d = digit (d.month / 10) ∷ digit d.month ∷ b'-' ∷ day_text d

-- YYYY-MM-DD
unfoldable pub iso_date : Date → List ℕ
iso_date d =
    digit (d.year / 1000)
    ∷ digit (d.year / 100)
    ∷ digit (d.year / 10)
    ∷ digit d.year
    ∷ b'-'
    ∷ month_text d

-- Two and four digits compare as the numbers do, and equal ones leave it to what follows.
lt_text-two :
    (a b : ℕ) (s t : List ℕ)
    → a < 100
    → b < 100
    → lt_text (digit (a / 10) ∷ digit a ∷ s) (digit (b / 10) ∷ digit b ∷ t)
      ≡ (if ltb a b then true else if ltb b a then false else lt_text s t)
unfolding lt_text
lt_text-two a b s t ha hb = ground arith

digits :
    (a : ℕ)
    → a < 10000
    → (digit (a / 1000) ≡ digit (a / 100 / 10))
      × (digit (a / 10) ≡ digit (a % 100 / 10))
      × (digit a ≡ digit (a % 100))
digits a h = (omega arith, omega arith, omega arith)

lt_text-four :
    (a b : ℕ) (s t : List ℕ)
    → a < 10000
    → b < 10000
    → lt_text
        (digit (a / 1000) ∷ digit (a / 100) ∷ digit (a / 10) ∷ digit a ∷ s)
        (digit (b / 1000) ∷ digit (b / 100) ∷ digit (b / 10) ∷ digit b ∷ t)
      ≡ (if ltb a b then true else if ltb b a then false else lt_text s t)
lt_text-four a b s t ha hb =
    let high =
      lt_text-two (a / 100) (b / 100) (digit (a / 10) ∷ digit a ∷ s) (digit (b / 10) ∷ digit b ∷ t)
        (omega arith) (omega arith) in
    let low = lt_text-two (a % 100) (b % 100) s t (omega arith) (omega arith) in
    ground (arith, high, low, digits a ha, digits b hb)

dash : (s t : List ℕ) → lt_text (b'-' ∷ s) (b'-' ∷ t) ≡ lt_text s t
unfolding lt_text
dash s t = refl

irreflexive : lt_text [] [] ≡ false
unfolding lt_text
irreflexive = refl

pub lt_text-iso_date :
    (a b : Date) → Fits a → Fits b → lt_text (iso_date a) (iso_date b) ≡ earlier a b
unfolding iso_date earlier
lt_text-iso_date a b f g =
    let years =
      lt_text-four a.year b.year (b'-' ∷ month_text a) (b'-' ∷ month_text b) f.year g.year in
    let months =
      lt_text-two a.month b.month (b'-' ∷ day_text a) (b'-' ∷ day_text b) f.month g.month in
    let days = lt_text-two a.day b.day [] [] f.day g.day in
    ground (
      arith,
      years,
      dash (month_text a) (month_text b),
      months,
      dash (day_text a) (day_text b),
      days,
      irreflexive,
    )

slice-iso_date : (d : Date) (rest : List ℕ) → slice 10 (iso_date d ++ rest) ≡ iso_date d
unfolding slice iso_date
slice-iso_date d rest = refl

iso_date-not_empty : (d : Date) (rest : List ℕ) → is_empty (iso_date d ++ rest) ≡ false
unfolding iso_date
iso_date-not_empty d rest = refl

no_item_date_empty : (d : Date) → is_empty (iso_date d) ≡ false
unfolding iso_date
no_item_date_empty d = refl

-- An item is outside the period of its report exactly if its date comes before the first day or
-- after the last one; both days are inside. The dates are texts YYYY-MM-DD, and the period may have
-- a time of day behind them. A form that only shows an item never warns.
pub is_outside_period-iso_date :
    (is_view : Bool) (start end date : Date) (time time2 : List ℕ)
    → Fits start
    → Fits end
    → Fits date
    → is_outside_period is_view
        (some (iso_date start ++ time))
        (some (iso_date end ++ time2))
        (iso_date date)
      ≡ not is_view && (earlier date start || earlier end date)
unfolding is_outside_period
is_outside_period-iso_date true start end date t u fs fe fd = refl
is_outside_period-iso_date false start end date t u fs fe fd =
    let first = lt_text-iso_date date start fd fs in
    let last = lt_text-iso_date end date fe fd in
    ground (
      arith,
      first,
      last,
      slice-iso_date start t,
      slice-iso_date end u,
      iso_date-not_empty start t,
      iso_date-not_empty end u,
      no_item_date_empty date,
    )
