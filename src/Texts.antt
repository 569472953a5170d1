-- ===== src/Texts.antt =====
-- The texts and the numbers of the URL, as the pages read and write them: `parseInt(s, 10)`,
-- `String(n)`, and which texts count as false. A text is the list of its UTF-16 code units. The
-- numbers are exact, as those of the source are up to 2 ^ 53.
pub mod RoundTrip
mod Tests
use Prim.Native.Char.{code}
use Prim.Native.String
use Prim.Native.String.{String}
use expense_saas.Prelude.{
  ℕ, zero, suc, Option, none, some, Bool, true, false, List, [], ◌∷◌, ◌==◌, ◌||◌, ◌&&◌, ◌+◌, ◌-◌,
  ◌*◌, ◌/◌, ◌%◌, ◌<◌, leb, if◌then◌else◌,
}

abbrev pub Chars : Type 0
Chars = List ℕ

-- A literal of characters that are one code unit each.
abbrev pub codes : String → Chars
codes String.[] = []
codes (String.◌∷◌ c s) = code c ∷ codes s

-- What `parseInt` returns; `neg n` is the number `-n`.
pub data Number : Type 0 where
  nan : Number
  pos neg : ℕ → Number

-- A text used as a condition.
abbrev pub is_given : Chars → Bool
is_given [] = false
is_given (_ ∷ _) = true

-- `s || undefined`
abbrev pub given : Chars → Option Chars
given [] = none
given (c ∷ s) = some (c ∷ s)

-- `o ?? d`
abbrev pub or_else {ℓ} : {A : Type ℓ} → Option A → A → A
or_else none d = d
or_else (some a) d = a

-- The white space that `parseInt` skips.
unfoldable pub is_space : ℕ → Bool
is_space c =
    (leb 9 c && leb c 13)
    || c == 32
    || c == 160
    || c == 5760
    || (leb 8192 c && leb c 8202)
    || c == 8232
    || c == 8233
    || c == 8239
    || c == 8287
    || c == 12288
    || c == 65279

abbrev pub is_digit : ℕ → Bool
is_digit c = leb b'0' c && leb c b'9'

unfoldable pub trim_start : Chars → Chars
unfolding is_space
trim_start [] = []
trim_start (c ∷ s) = let rest = trim_start s in if is_space c then rest else c ∷ s

-- The digits up to the first other character.
unfoldable pub scan : Chars → ℕ → ℕ
scan [] n = n
scan (c ∷ s) n = let rest = scan s (n * 10 + (c - b'0')) in if is_digit c then rest else n

unfoldable pub unsigned : Chars → Option ℕ
unfolding scan
unsigned [] = none
unsigned (c ∷ s) = if is_digit c then some (scan (c ∷ s) 0) else none

abbrev pub positive : Option ℕ → Number
positive none = nan
positive (some n) = pos n

abbrev pub negative : Option ℕ → Number
negative none = nan
negative (some n) = neg n

unfoldable pub signed : Chars → Number
unfolding unsigned
signed [] = nan
signed (c ∷ s) =
    if c == b'-'
    then negative (unsigned s)
    else if c == b'+'
    then positive (unsigned s)
    else positive (unsigned (c ∷ s))

-- `parseInt(s, 10)`
unfoldable pub parse_int : Chars → Number
unfolding signed trim_start
parse_int s = signed (trim_start s)

-- The digits of a number in front of a text, the last one first. Each round divides the number by
-- ten, so that a fuel of the number itself is enough.
unfoldable pub prepend_digits : (fuel n : ℕ) → Chars → Chars
prepend_digits zero n out = out
prepend_digits (suc fuel) n out =
    let longer = prepend_digits fuel (n / 10) ((b'0' + n % 10) ∷ out) in
    if n == 0 then out else longer

-- `String(n)` of a natural number, and of every number.
unfoldable pub string : ℕ → Chars
unfolding prepend_digits
string n = if n == 0 then b'0' ∷ [] else prepend_digits n n []

unfoldable pub string_of : Number → Chars
unfolding string
string_of nan = b'N' ∷ b'a' ∷ b'N' ∷ []
string_of (pos n) = string n
string_of (neg zero) = b'0' ∷ []
string_of (neg (suc n)) = b'-' ∷ string (suc n)

-- `===` on texts.
unfoldable pub same : Chars → Chars → Bool
same [] [] = true
same (a ∷ s) (b ∷ t) = a == b && same s t
same _ _ = false
