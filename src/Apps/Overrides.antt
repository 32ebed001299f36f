-- ===== src/Apps/Overrides.antt =====
-- What the checks of the overrides of an app ensure of the columns that are written.
use sassy_auth.Common.{
  ℕ, pos, negsuc, ◌≤◌, String, true, false, Option, none, some, ⊤, ◌≡◌, arith, ok,
}
use sassy_auth.PasswordPolicy.{PasswordPolicy}
use sassy_auth.Json.{JsonItem, str, not_str}
use sassy_auth.Db.{ActivationEmailBranding}
use sassy_auth.Apps.Validation.{
  JsonValue, number, boolean, other, PasswordPolicyDto, policy_of, within, natural, check_ranges,
  assert_valid_password_policy_override, ActivationEmailDto, branding_of, has_line_break, text,
  check_text_field, assert_valid_activation_email_override,
}

-- The bounds of a policy.
pub record IsSane (p : PasswordPolicy) : Type 0 where
  pub least : 8 ≤ p.min_length
  pub most : p.min_length ≤ 128
  pub numbers : p.min_numbers ≤ p.min_length
  pub special : p.min_special ≤ p.min_length

within_bounds :
    (lo hi : ℕ) (v : JsonValue) → within lo hi v ≡ true → (lo ≤ natural v) × (natural v ≤ hi)
within_bounds lo hi (number (pos n)) h = ground arith
within_bounds lo hi (number (negsuc n)) h = cc
within_bounds lo hi (boolean b) h = cc
within_bounds lo hi other h = cc

pub policy_of-IsSane :
    (d : PasswordPolicyDto) → assert_valid_password_policy_override d ≡ ok tt → IsSane (policy_of d)
unfolding assert_valid_password_policy_override check_ranges policy_of
policy_of-IsSane d h =
    let a = within_bounds 8 128 d.min_length (ground arith) in
    let b = within_bounds 0 (natural d.min_length) d.min_numbers (ground arith) in
    let c = within_bounds 0 (natural d.min_length) d.min_special (ground arith) in
    record { least = a.0; most = a.1; numbers = b.1; special = c.1 }

abbrev OneLine : Option String → Type 0
OneLine none = ⊤
OneLine (some s) = has_line_break s ≡ false

-- None of the texts that become headers of a mail has a line break.
pub record IsSafe (b : ActivationEmailBranding) : Type 0 where
  pub from_name : OneLine b.from_name
  pub from_address : OneLine b.from_address
  pub subject : OneLine b.subject

header_field :
    (field : String) (v : Option JsonItem)
    → check_text_field field true v ≡ ok tt
    → OneLine (text v)
unfolding check_text_field
header_field field none h = tt
header_field field (some not_str) h = cc
header_field field (some (str s)) h = ground arith

pub branding_of-IsSafe :
    (d : ActivationEmailDto)
    → assert_valid_activation_email_override d ≡ ok tt
    → IsSafe (branding_of d)
unfolding assert_valid_activation_email_override branding_of
branding_of-IsSafe d h = record {
  from_name = header_field "fromName" d.from_name (ground arith);
  from_address = header_field "fromAddress" d.from_address (ground arith);
  subject = header_field "subject" d.subject (ground arith);
}
