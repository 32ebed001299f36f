-- ===== src/Apps/Validation.antt =====
-- apps/auth-server/src/apps/apps.service.ts: what the values of a request for an app have to
-- satisfy. A value of a JSON body is what the checks tell apart; its numbers are integers.
use sassy_auth.Common.{
  ℕ, ℤ, pos, String, Bool, true, false, not, ◌&&◌, ◌||◌, Option, none, some, List, [], ◌∷◌, ⊤, ◌==◌,
  ◌===◌, leb, if◌then◌else◌, any, all, codes, contains, Result, ok, err, bad_request, plain,
  with_names,
}
use Prim.Native.String
use sassy_auth.RedirectUri.{Url, login, post_logout, RedirectUri}
use sassy_auth.PasswordPolicy.{PasswordPolicy}
use sassy_auth.Json.{JsonItem, str, not_str}
use sassy_auth.Db.{ActivationEmailBranding, EmailVerificationMethod, link, code}

pub record RedirectUriDto : Type 0 where
  pub uri : String
  pub kind : String

-- The entry of `seen`: `${r.uri} ${r.kind}`
abbrev pub redirect_key : String → String → String
redirect_key uri kind = String.◌++◌ uri (String.◌++◌ " " kind)

-- The row that is written for an entry whose kind was checked.
unfoldable pub redirect_row : RedirectUriDto → RedirectUri
redirect_row r = record { uri = r.uri; kind = if r.kind === "login" then login else post_logout }

abbrev pub is_http : Url → Bool
is_http u = u.protocol === "http:" || u.protocol === "https:"

abbrev pub is_kind : String → Bool
is_kind k = k === "login" || k === "post_logout"

abbrev refused : String → List String → Result ⊤
refused text values = err (bad_request (with_names text values))

module _ (parse_url : String → Option Url) where
  -- The loop of `assertValidRedirectUris`, with the keys that it has seen.
  unfoldable pub check_redirect_uris : List String → List RedirectUriDto → Result ⊤
  check_redirect_uris seen [] = ok tt
  check_redirect_uris seen (r ∷ rs) =
      let key = redirect_key r.uri r.kind in
      let rest = check_redirect_uris (key ∷ seen) rs in
      elim (parse_url r.uri) [
        | none ↦ refused "Invalid redirect URI: %" (r.uri ∷ [])
        | some u ↦
            if not (is_http u)
            then refused "Redirect URI must be http(s): %" (r.uri ∷ [])
            else if not (is_kind r.kind)
            then refused "Invalid redirect URI kind: %" (r.kind ∷ [])
            else if contains seen key
            then refused "Duplicate redirect URI: % (%)" (r.uri ∷ r.kind ∷ [])
            else rest
      ]

  -- `assertValidRedirectUris`
  unfoldable pub assert_valid_redirect_uris : List RedirectUriDto → Result ⊤
  assert_valid_redirect_uris uris = check_redirect_uris [] uris

-- A value that the checks tell apart by `typeof` and `Number.isFinite`.
pub data JsonValue : Type 0 where
  number : ℤ → JsonValue
  boolean : Bool → JsonValue
  other : JsonValue

abbrev pub is_finite_number : JsonValue → Bool
is_finite_number (number n) = true
is_finite_number _ = false

abbrev pub is_boolean : JsonValue → Bool
is_boolean (boolean b) = true
is_boolean _ = false

pub record PasswordPolicyDto : Type 0 where
  pub min_length : JsonValue
  pub require_uppercase : JsonValue
  pub require_lowercase : JsonValue
  pub require_number : JsonValue
  pub require_special : JsonValue
  pub min_numbers : JsonValue
  pub min_special : JsonValue

-- The first field of a list that fails a test.
abbrev pub first_failing : (JsonValue → Bool) → List (String × JsonValue) → Option String
first_failing test [] = none
first_failing test ((field, v) ∷ rest) = if test v then first_failing test rest else some field

abbrev pub number_fields : PasswordPolicyDto → List (String × JsonValue)
number_fields p =
    ("minLength", p.min_length) ∷ ("minNumbers", p.min_numbers) ∷ ("minSpecial", p.min_special) ∷ []

abbrev pub boolean_fields : PasswordPolicyDto → List (String × JsonValue)
boolean_fields p =
    ("requireUppercase", p.require_uppercase)
    ∷ ("requireLowercase", p.require_lowercase)
    ∷ ("requireNumber", p.require_number)
    ∷ ("requireSpecial", p.require_special)
    ∷ []

abbrev pub natural : JsonValue → ℕ
natural (number (pos n)) = n
natural _ = 0

abbrev pub flag : JsonValue → Bool
flag (boolean b) = b
flag _ = false

abbrev pub within : ℕ → ℕ → JsonValue → Bool
within lo hi (number (pos n)) = leb lo n && leb n hi
within lo hi _ = false

-- What the column holds of an override that was accepted.
unfoldable pub policy_of : PasswordPolicyDto → PasswordPolicy
policy_of p = record {
  min_length = natural p.min_length;
  require_uppercase = flag p.require_uppercase;
  require_lowercase = flag p.require_lowercase;
  require_number = flag p.require_number;
  require_special = flag p.require_special;
  min_numbers = natural p.min_numbers;
  min_special = natural p.min_special;
}

abbrev out_of_range : String → Result ⊤
out_of_range text = err (bad_request (plain text))

-- The three range checks; the second and the third have passed the first.
unfoldable pub check_ranges : PasswordPolicyDto → Result ⊤
check_ranges p =
    if not (within 8 128 p.min_length)
    then out_of_range "passwordPolicyOverride.minLength must be between 8 and 128"
    else if not (within 0 (natural p.min_length) p.min_numbers)
    then out_of_range "passwordPolicyOverride.minNumbers must be between 0 and minLength"
    else if not (within 0 (natural p.min_length) p.min_special)
    then out_of_range "passwordPolicyOverride.minSpecial must be between 0 and minLength"
    else ok tt

-- `assertValidPasswordPolicyOverride`
unfoldable pub assert_valid_password_policy_override : PasswordPolicyDto → Result ⊤
unfolding check_ranges
assert_valid_password_policy_override p = elim (first_failing is_finite_number (number_fields p)) [
  | some field ↦ refused "passwordPolicyOverride.% must be a number" (field ∷ [])
  | none ↦ elim (first_failing is_boolean (boolean_fields p)) [
    | some field ↦ refused "passwordPolicyOverride.% must be a boolean" (field ∷ [])
    | none ↦ check_ranges p
  ]
]

pub record ActivationEmailDto : Type 0 where
  pub from_name : Option JsonItem
  pub from_address : Option JsonItem
  pub subject : Option JsonItem
  pub message : Option JsonItem

-- `/[\r\n]/.test(value)`
unfoldable pub has_line_break : String → Bool
has_line_break s = any (λ c. c == 13 || c == 10) (codes s)

-- One round of the loop of `assertValidActivationEmailOverride`; `true` for a header field.
unfoldable pub check_text_field : String → Bool → Option JsonItem → Result ⊤
check_text_field field header none = ok tt
check_text_field field header (some not_str) =
    refused "activationEmailOverride.% must be a string" (field ∷ [])
check_text_field field header (some (str s)) =
    if header && has_line_break s
    then refused "activationEmailOverride.% must not contain line breaks" (field ∷ [])
    else ok tt

-- `\s`
abbrev pub is_space : ℕ → Bool
is_space c =
    leb 9 c && leb c 13
    || c == 32
    || c == 160
    || c == 5760
    || leb 8192 c && leb c 8202
    || c == 8232
    || c == 8233
    || c == 8239
    || c == 8287
    || c == 12288
    || c == 65279

-- `[^\s@]`
abbrev pub is_part : ℕ → Bool
is_part c = not (is_space c) && not (c == b'@')

-- A dot with something after it.
unfoldable pub has_dot_inside : List ℕ → Bool
has_dot_inside [] = false
has_dot_inside (c ∷ []) = false
has_dot_inside (c ∷ d ∷ ds) = c == b'.' || has_dot_inside (d ∷ ds)

-- What `[^\s@]+\.[^\s@]+$` matches.
unfoldable pub is_domain : List ℕ → Bool
is_domain [] = false
is_domain (c ∷ cs) = all is_part (c ∷ cs) && has_dot_inside cs

-- `[^\s@]*@…`, after the first character
unfoldable pub has_domain : List ℕ → Bool
has_domain [] = false
has_domain (c ∷ cs) =
    let rest = has_domain cs in if c == b'@' then is_domain cs else is_part c && rest

-- `BASIC_EMAIL_PATTERN.test(s)`
unfoldable pub is_basic_email : List ℕ → Bool
is_basic_email [] = false
is_basic_email (c ∷ cs) = is_part c && has_domain cs

unfoldable pub check_address : Option JsonItem → Result ⊤
check_address (some (str s)) =
    if is_basic_email (codes s)
    then ok tt
    else out_of_range "activationEmailOverride.fromAddress must be a valid email address"
check_address _ = ok tt

infixl 5 ◌and_then◌
abbrev pub ◌and_then◌ : Result ⊤ → Result ⊤ → Result ⊤
ok u and_then r = r
err e and_then r = err e

-- `assertValidActivationEmailOverride`
unfoldable pub assert_valid_activation_email_override : ActivationEmailDto → Result ⊤
assert_valid_activation_email_override o =
    check_text_field "fromName" true o.from_name
    and_then check_text_field "fromAddress" true o.from_address
    and_then check_text_field "subject" true o.subject
    and_then check_text_field "message" false o.message
    and_then check_address o.from_address

abbrev pub text : Option JsonItem → Option String
text (some (str s)) = some s
text _ = none

unfoldable pub branding_of : ActivationEmailDto → ActivationEmailBranding
branding_of o = record {
  from_name = text o.from_name;
  from_address = text o.from_address;
  subject = text o.subject;
  message = text o.message;
}

-- `assertValidEmailVerificationMethod`
unfoldable pub assert_valid_email_verification_method : String → Result ⊤
assert_valid_email_verification_method value =
    if not (value === "link") && not (value === "code")
    then out_of_range "emailVerificationMethod must be \"link\" or \"code\""
    else ok tt

unfoldable pub method_of : String → EmailVerificationMethod
method_of value = if value === "link" then link else code
