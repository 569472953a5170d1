-- ===== src/Messages/Coverage.antt =====
-- lib/error-messages.ts: every code has a text, and an inferred code is a known one.
use expense_saas.Prelude.{
  ℕ, String, Option, none, some, ◌≢◌, ◌⊎◌, true, all, Bool, false, List, [], ◌∷◌, map, any, str_eq,
  ◌≡◌, refl, arith, not, ◌||◌, eq_iff, ◌↔◌,
}
use expense_saas.Messages.{
  error_codes, server_error_messages, entry, infer_code_from_status, message_of,
  internal_error_message,
}

-- The code is one of the API's.
unfoldable pub known : String → Bool
known code = any (str_eq code) error_codes

keys : List (String × String) → List String
keys = map (λ (p : String × String). p.0)

-- The table of texts has exactly the codes of the API, in their order.
keys_agree : keys server_error_messages ≡ error_codes
unfolding server_error_messages error_codes keys
keys_agree = refl

any-keys_of_entry :
    (code : String) (table : List (String × String))
    → (entry code table ≡ none) ↔ (any (str_eq code) (keys table) ≡ false)
unfolding entry keys
any-keys_of_entry code [] = ground arith
any-keys_of_entry code ((k, v) ∷ rest) =
    ground (arith, eq_iff k code, eq_iff code k, any-keys_of_entry code rest)

entry-none_iff : (code : String) → (entry code server_error_messages ≡ none) ↔ (known code ≡ false)
unfolding known
entry-none_iff code = rw (← keys_agree) (any-keys_of_entry code server_error_messages)

-- What holds of every row of a table holds of the row that a look-up finds.
entry-all :
    (p : String → String → Bool) (code : String) (table : List (String × String)) {text : String}
    → all (λ (r : String × String). p r.0 r.1) table ≡ true
    → entry code table ≡ some text
    → p code text ≡ true
unfolding entry
entry-all p code [] h e = cc
entry-all p code ((k, v) ∷ rest) {text} h e =
    ground (arith, eq_iff k code, entry-all p code rest {text = text})

-- A row whose text is the generic one is the row of INTERNAL_ERROR.
own_text : String → String → Bool
own_text code text = str_eq code "INTERNAL_ERROR" || not (str_eq text internal_error_message)

rows_own_text : all (λ (r : String × String). own_text r.0 r.1) server_error_messages ≡ true
unfolding own_text server_error_messages
rows_own_text = refl

internal_entry : entry "INTERNAL_ERROR" server_error_messages ≡ some internal_error_message
unfolding entry server_error_messages
internal_entry = refl

own_text_lem :
    (code : String) → own_text code internal_error_message ≡ true → code ≡ "INTERNAL_ERROR"
unfolding own_text
own_text_lem code h = ground (arith, eq_iff code "INTERNAL_ERROR")

-- For a code that is no validation error, the generic text for a failed communication is shown
-- exactly if the code is INTERNAL_ERROR or none of the API's.
message_of-internal_iff :
    (code : String) (server_message : Option String)
    → code ≢ "VALIDATION_ERROR"
    → (message_of code server_message ≡ internal_error_message)
      ↔ ((code ≡ "INTERNAL_ERROR") ⊎ (known code ≡ false))
unfolding message_of
message_of-internal_iff code sm h = ground (
  arith,
  eq_iff code "VALIDATION_ERROR",
  entry-none_iff code,
  internal_entry,
  own_text_lem code,
  entry-all own_text code server_error_messages {text = internal_error_message} rows_own_text,
)

known_codes :
    (known "INTERNAL_ERROR" ≡ true)
    × (known "RATE_LIMIT_EXCEEDED" ≡ true)
    × (known "RESOURCE_NOT_FOUND" ≡ true)
    × (known "FORBIDDEN" ≡ true)
    × (known "CONFLICT" ≡ true)
    × (known "VALIDATION_ERROR" ≡ true)
unfolding known error_codes
known_codes = (refl, refl, refl, refl, refl, refl)

-- Whatever the status, the code inferred from it is one of the API's, so it has a text.
pub infer_code_from_status-known : (status : ℕ) → known (infer_code_from_status status) ≡ true
unfolding infer_code_from_status
infer_code_from_status-known status = ground (arith, known_codes)
