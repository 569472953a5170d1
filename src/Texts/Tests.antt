-- ===== src/Texts/Tests.antt =====
-- Numbers in the URL.
use expense_saas.Prelude.{[], ◌≡◌, refl}
use expense_saas.Texts.{nan, pos, neg, parse_int, string, string_of, codes}

leading : parse_int (codes " 12abc") ≡ pos 12
unfolding parse_int
leading = refl

signs : (parse_int (codes "-7") ≡ neg 7) × (parse_int (codes "+7") ≡ pos 7)
unfolding parse_int
signs = (refl, refl)

no_digit : (parse_int (codes "x1") ≡ nan) × (parse_int [] ≡ nan)
unfolding parse_int
no_digit = (refl, refl)

printed : (string 105 ≡ codes "105") × (string_of (neg 3) ≡ codes "-3")
unfolding string_of
printed = (refl, refl)
