-- ===== src/PasswordPolicy.antt =====
-- apps/auth-server/src/auth/password-policy.ts, and `evaluatePasswordPolicy` of
-- packages/types/index.ts: which passwords an app accepts. The environment's policy is a parameter.
pub mod Meeting
use sassy_auth.Common.{
  ℕ, ◌+◌, ◌≤◌, String, Bool, true, false, not, ◌&&◌, ◌||◌, Option, none, some, List, [], ◌∷◌, ◌++◌,
  map, ◌≡◌, ◌↔◌, inl, inr, refl, arith, leb, ltb, ◌==◌, if◌then◌else◌, filter, any, count_where,
  codes, get_or, Bool-cases, Exception, bad_request, with_names, Result, ok, err, ⊤,
  contains_number,
}

pub record PasswordPolicy : Type 0 where
  pub min_length : ℕ
  pub require_uppercase : Bool
  pub require_lowercase : Bool
  pub require_number : Bool
  pub require_special : Bool
  pub min_numbers : ℕ
  pub min_special : ℕ

-- `PasswordRuleKey`, and the synthetic key `'maxLength'`.
pub data PasswordRuleKey : Type 0 where
  min_length require_uppercase require_lowercase require_number require_special min_numbers
        min_special max_length :
      PasswordRuleKey

pub record PasswordRuleResult : Type 0 where
  pub rule : PasswordRuleKey
  pub met : Bool

abbrev pub max_password_length : ℕ
max_password_length = 256

-- `s.length`: a code point beyond the basic plane counts twice.
abbrev pub units : List ℕ → ℕ
units [] = 0
units (c ∷ cs) = (if ltb c 65536 then 1 else 2) + units cs

abbrev pub is_upper : ℕ → Bool
is_upper c = leb b'A' c && leb c b'Z'

abbrev pub is_lower : ℕ → Bool
is_lower c = leb b'a' c && leb c b'z'

abbrev pub is_digit : ℕ → Bool
is_digit c = leb b'0' c && leb c b'9'

-- `SPECIAL_CHAR_PATTERN`: the punctuation of ASCII but the backslash, which only escapes there.
abbrev pub is_special : ℕ → Bool
is_special c =
    leb 33 c && leb c 47
    || leb 58 c && leb c 64
    || leb 91 c && leb c 96 && not (c == 92)
    || leb 123 c && leb c 126

abbrev pub result : PasswordRuleKey → Bool → PasswordRuleResult
result rule met = record { rule = rule; met = met }

-- A count that a rule requires: at least one, and the minimum where it is above one.
unfoldable pub count_rules :
    Bool → PasswordRuleKey → PasswordRuleKey → ℕ → ℕ → List PasswordRuleResult
count_rules false one several minimum count = []
count_rules true one several minimum count =
    result one (leb 1 count)
    ∷ (if ltb 1 minimum then result several (leb minimum count) ∷ [] else [])

unfoldable pub flag_rule : Bool → PasswordRuleKey → Bool → List PasswordRuleResult
flag_rule required rule met = if required then result rule met ∷ [] else []

-- `evaluatePasswordPolicy`
unfoldable pub evaluate_password_policy : List ℕ → PasswordPolicy → List PasswordRuleResult
evaluate_password_policy password policy =
    result min_length (leb policy.min_length (units password))
    ∷ (flag_rule policy.require_uppercase require_uppercase (any is_upper password)
        ++ (flag_rule policy.require_lowercase require_lowercase (any is_lower password)
            ++ (count_rules policy.require_number require_number min_numbers policy.min_numbers
                  (count_where is_digit password)
                ++ count_rules policy.require_special require_special min_special policy.min_special
                    (count_where is_special password))))

-- `getFailedPasswordRules`
unfoldable pub get_failed_password_rules : List ℕ → PasswordPolicy → List PasswordRuleKey
get_failed_password_rules password policy =
    map (λ r. r.rule) (filter (λ r. not r.met) (evaluate_password_policy password policy))
    ++ (if ltb max_password_length (units password) then max_length ∷ [] else [])

abbrev pub rule_name : PasswordRuleKey → String
rule_name min_length = "minLength"
rule_name require_uppercase = "requireUppercase"
rule_name require_lowercase = "requireLowercase"
rule_name require_number = "requireNumber"
rule_name require_special = "requireSpecial"
rule_name min_numbers = "minNumbers"
rule_name min_special = "minSpecial"
rule_name max_length = "maxLength"

-- `validatePasswordOrThrow`
unfoldable pub validate_password_or_throw : String → PasswordPolicy → Result ⊤
validate_password_or_throw password policy =
    elim (get_failed_password_rules (codes password) policy) [
      | [] ↦ ok tt
      | r ∷ rs ↦ err (bad_request (with_names "password.policyViolation" (map rule_name (r ∷ rs))))
    ]

-- `resolvePasswordPolicy`: the app's own policy replaces the environment's as a whole.
unfoldable pub resolve_password_policy : PasswordPolicy → Option PasswordPolicy → PasswordPolicy
resolve_password_policy default override = get_or override default
