-- ===== src/Texts/RoundTrip.antt =====
-- `parseInt` reads what `String` writes.
use expense_saas.Prelude.{
  ℕ, zero, suc, Bool, true, false, [], ◌∷◌, ◌+◌, ◌/◌, ◌%◌, ◌≤◌, ◌≡◌, ◌↔◌, ◌∙◌, refl, sym, ap, arith,
  ◌==◌, if◌then◌else◌,
}
use expense_saas.Texts.{
  Chars, pos, is_digit, is_space, trim_start, scan, unsigned, signed, parse_int, prepend_digits,
  string, same,
}

abbrev starts : Chars → Bool
starts [] = false
starts (c ∷ _) = is_digit c

-- Reading goes on behind the digits with the number that they spell.
scan-prepend_digits :
    (fuel n : ℕ) (out : Chars) → n ≤ fuel → scan (prepend_digits fuel n out) 0 ≡ scan out n
unfolding prepend_digits scan
scan-prepend_digits zero n out enough = ground arith
scan-prepend_digits (suc fuel) n out enough =
    ground (arith, scan-prepend_digits fuel (n / 10) ((b'0' + n % 10) ∷ out))

starts-prepend_digits :
    (fuel n : ℕ) (out : Chars) → starts out ≡ true → starts (prepend_digits fuel n out) ≡ true
unfolding prepend_digits
starts-prepend_digits zero n out h = h
starts-prepend_digits (suc fuel) n out h =
    ground (arith, starts-prepend_digits fuel (n / 10) ((b'0' + n % 10) ∷ out))

scan-string : (n : ℕ) → scan (string n) 0 ≡ n
unfolding string scan
scan-string n = ground (arith, scan-prepend_digits n n [])

starts-string : (n : ℕ) → starts (string n) ≡ true
unfolding string prepend_digits
starts-string zero = refl
starts-string (suc k) =
    ground (arith, starts-prepend_digits k (suc k / 10) ((b'0' + suc k % 10) ∷ []))

-- Every fuel from the number on gives the same text: none of its digits is cut off.
pub prepend_digits-fuel :
    (fuel other n : ℕ) (out : Chars)
    → n ≤ fuel
    → n ≤ other
    → prepend_digits fuel n out ≡ prepend_digits other n out
unfolding prepend_digits
prepend_digits-fuel zero zero n out f o = refl
prepend_digits-fuel zero (suc other) n out f o = ground arith
prepend_digits-fuel (suc fuel) zero n out f o = ground arith
prepend_digits-fuel (suc fuel) (suc other) n out f o =
    ground (arith, prepend_digits-fuel fuel other (n / 10) ((b'0' + n % 10) ∷ out))

-- A text that starts with a digit is read as its digits.
parse_int-digits : (s : Chars) → starts s ≡ true → parse_int s ≡ pos (scan s 0)
unfolding parse_int signed trim_start unsigned is_space
parse_int-digits [] h = absurd (ground arith)
parse_int-digits (c ∷ s) h = ground arith

-- Reading the text of a number gives the number.
pub parse_int-string : (n : ℕ) → parse_int (string n) ≡ pos n
parse_int-string n = parse_int-digits (string n) (starts-string n) ∙ ap pos (scan-string n)

pub same→eq : (s t : Chars) → same s t ≡ true → s ≡ t
unfolding same
same→eq [] [] h = refl
same→eq [] (b ∷ t) h = absurd (ground arith)
same→eq (a ∷ s) [] h = absurd (ground arith)
same→eq (a ∷ s) (b ∷ t) h = ground (arith, same→eq s t)

same_refl : (s : Chars) → same s s ≡ true
unfolding same
same_refl [] = refl
same_refl (a ∷ s) = ground (arith, same_refl s)

pub same_iff : (s t : Chars) → (same s t ≡ true) ↔ (s ≡ t)
same_iff s t = (same→eq s t, λ h. rw (sym h) (same_refl s))

-- The loop that writes a number comes to its end: a fuel of the number itself gives the text that
-- every larger fuel gives, and that text is read back as the number.
string-fuel :
    (fuel n : ℕ)
    → n ≤ fuel
    → (string n ≡ (if n == 0 then b'0' ∷ [] else prepend_digits fuel n []))
      × (parse_int (string n) ≡ pos n)
unfolding string
string-fuel fuel n enough =
    (rw (prepend_digits-fuel fuel n n [] enough (omega arith)) refl, parse_int-string n)
