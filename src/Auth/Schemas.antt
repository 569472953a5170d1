-- ===== src/Auth/Schemas.antt =====
-- The validation of the forms that need no session: loginSchema.ts, signupSchema.ts,
-- passwordResetRequestSchema.ts and passwordResetSchema.ts of frontend/src/pages. A schema returns
-- its issues in order; a form shows the first one of a field. Whether a text is an e-mail address is
-- the schema library's.
use expense_saas.Prelude.{
  ℕ, String, Bool, true, List, [], ◌∷◌, ◌++◌, length, ltb, ◌≤◌, ◌≡◌, ◌↔◌, arith, if◌then◌else◌, ap,
}
use expense_saas.Texts.{Chars, same}
use expense_saas.Texts.RoundTrip.{same_iff}

pub data Field : Type 0 where
  company_name user_name email password new_password confirm_password : Field

abbrev pub Issues : Type 0
Issues = List (Field × String)

-- `.min(n, message)` and `.max(n, message)`
unfoldable pub min_issue : Field → ℕ → String → Chars → Issues
min_issue field n message s = if ltb (length s) n then (field, message) ∷ [] else []

unfoldable pub max_issue : Field → ℕ → String → Chars → Issues
max_issue field n message s = if ltb n (length s) then (field, message) ∷ [] else []

abbrev password_issues : Field → String → Chars → Issues
password_issues field missing s =
    min_issue field 1 missing s
    ++ min_issue field 8 "パスワードは8文字以上で入力してください" s
    ++ max_issue field 128 "パスワードは128文字以内で入力してください" s

pub record LoginInput : Type 0 where
  pub email : Chars
  pub password : Chars

pub record SignupInput : Type 0 where
  pub company_name : Chars
  pub user_name : Chars
  pub email : Chars
  pub password : Chars

-- The form of a new password, with the confirmation that is not sent.
pub record PasswordResetFormValues : Type 0 where
  pub new_password : Chars
  pub confirm_password : Chars

module _ (is_email : Chars → Bool) where
  abbrev email_issues : Chars → Issues
  email_issues s =
      min_issue email 1 "メールアドレスを入力してください" s
      ++ max_issue email 254 "メールアドレスは254文字以内で入力してください" s
      ++ (if is_email s then [] else (email, "有効なメールアドレスを入力してください") ∷ [])

  unfoldable pub login_schema : LoginInput → Issues
  unfolding min_issue max_issue
  login_schema v = email_issues v.email ++ password_issues password "パスワードを入力してください" v.password

  unfoldable pub signup_schema : SignupInput → Issues
  unfolding min_issue max_issue
  signup_schema v =
      min_issue company_name 1 "会社名を入力してください" v.company_name
      ++ max_issue company_name 200 "会社名は200文字以内で入力してください" v.company_name
      ++ min_issue user_name 1 "ユーザー名を入力してください" v.user_name
      ++ max_issue user_name 100 "ユーザー名は100文字以内で入力してください" v.user_name
      ++ email_issues v.email
      ++ password_issues password "パスワードを入力してください" v.password

  unfoldable pub password_reset_request_schema : Chars → Issues
  unfolding min_issue max_issue
  password_reset_request_schema s = email_issues s

-- The two fields are compared whatever their own issues are.
unfoldable pub password_reset_schema : PasswordResetFormValues → Issues
unfolding min_issue max_issue same
password_reset_schema v =
    password_issues new_password "新しいパスワードを入力してください" v.new_password
    ++ min_issue confirm_password 1 "確認用パスワードを入力してください" v.confirm_password
    ++ (if same v.new_password v.confirm_password
        then []
        else (confirm_password, "パスワードが一致しません") ∷ [])

-- A text has at least `a` and at most `b` code units.
abbrev pub Between : ℕ → ℕ → Chars → Type 0
Between a b s = (a ≤ length s) × (length s ≤ b)

module _ (is_email : Chars → Bool) where
  -- The login form is accepted exactly if the address has at most 254 code units and is one, and
  -- the password has between 8 and 128.
  pub login_schema_iff :
      (v : LoginInput)
      → (login_schema is_email v ≡ [])
        ↔ (Between 1 254 v.email × (is_email v.email ≡ true) × Between 8 128 v.password)
  unfolding login_schema
  login_schema_iff v = ground arith

  signup_schema_iff :
      (v : SignupInput)
      → (signup_schema is_email v ≡ []) ↔ (
          Between 1 200 v.company_name
          × Between 1 100 v.user_name
          × Between 1 254 v.email
          × (is_email v.email ≡ true)
          × Between 8 128 v.password)
  unfolding signup_schema
  signup_schema_iff v = ground arith

length-eq : (s t : Chars) → s ≡ t → length s ≡ length t
length-eq s t = ap length

password_reset_schema_iff :
    (v : PasswordResetFormValues)
    → (password_reset_schema v ≡ [])
      ↔ (Between 8 128 v.new_password × (v.new_password ≡ v.confirm_password))
unfolding password_reset_schema
password_reset_schema_iff v =
    ground (
      arith,
      same_iff v.new_password v.confirm_password,
      length-eq v.new_password v.confirm_password,
    )
