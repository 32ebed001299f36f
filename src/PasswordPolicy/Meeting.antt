-- ===== src/PasswordPolicy/Meeting.antt =====
-- What a password has to have that passes its app's policy.
use sassy_auth.Common.{
  ℕ, ◌≤◌, String, Bool, true, false, not, ◌&&◌, List, [], ◌∷◌, ◌++◌, map, ◌≡◌, ◌↔◌, refl, arith,
  leb, filter, any, all, count_where, codes, ok,
}
use sassy_auth.PasswordPolicy.{
  PasswordPolicy, PasswordRuleKey, PasswordRuleResult, max_password_length, units, is_upper,
  is_lower, is_digit, is_special, count_rules, flag_rule, evaluate_password_policy,
  get_failed_password_rules, validate_password_or_throw,
}

-- What a password has to have.
pub record Meets (policy : PasswordPolicy) (password : List ℕ) : Type 0 where
  pub long : policy.min_length ≤ units password
  pub short : units password ≤ max_password_length
  pub upper : policy.require_uppercase ≡ true → any is_upper password ≡ true
  pub lower : policy.require_lowercase ≡ true → any is_lower password ≡ true
  pub digits :
      policy.require_number ≡ true
      → (1 ≤ count_where is_digit password) × (policy.min_numbers ≤ count_where is_digit password)
  pub specials :
      policy.require_special ≡ true
      → (1 ≤ count_where is_special password)
        × (policy.min_special ≤ count_where is_special password)

abbrev all_met : List PasswordRuleResult → Bool
all_met = all (λ r. r.met)

all_met-append : (xs ys : List PasswordRuleResult) → all_met (xs ++ ys) ≡ (all_met xs && all_met ys)
all_met-append [] ys = refl
all_met-append (x ∷ xs) ys = ground (arith, all_met-append xs ys)

none_failed_iff :
    (rs : List PasswordRuleResult) (more : List PasswordRuleKey)
    → ((map (λ r. r.rule) (filter (λ r. not r.met) rs) ++ more) ≡ [])
      ↔ ((all_met rs ≡ true) × (more ≡ []))
none_failed_iff [] more = ground arith
none_failed_iff (r ∷ rs) more = ground (arith, none_failed_iff rs more)

flag_rule_iff :
    (required : Bool) (rule : PasswordRuleKey) (met : Bool)
    → (all_met (flag_rule required rule met) ≡ true) ↔ (required ≡ true → met ≡ true)
unfolding flag_rule
flag_rule_iff true rule met = ground arith
flag_rule_iff false rule met = (λ h e. cc, λ h. refl)

count_rules_iff :
    (required : Bool) (one several : PasswordRuleKey) (minimum count : ℕ)
    → (all_met (count_rules required one several minimum count) ≡ true)
      ↔ (required ≡ true → (1 ≤ count) × (minimum ≤ count))
unfolding count_rules
count_rules_iff true one several minimum count =
    (λ h e. ground arith, λ h. let both = h refl in ground arith)
count_rules_iff false one several minimum count = (λ h e. cc, λ h. refl)

abbrev flags : PasswordPolicy → List ℕ → List PasswordRuleResult × List PasswordRuleResult
flags policy password = (
  flag_rule policy.require_uppercase PasswordRuleKey.require_uppercase (any is_upper password),
  flag_rule policy.require_lowercase PasswordRuleKey.require_lowercase (any is_lower password),
)

abbrev counts : PasswordPolicy → List ℕ → List PasswordRuleResult × List PasswordRuleResult
counts policy password = (
  count_rules policy.require_number PasswordRuleKey.require_number PasswordRuleKey.min_numbers
      policy.min_numbers (count_where is_digit password),
  count_rules policy.require_special PasswordRuleKey.require_special PasswordRuleKey.min_special
      policy.min_special (count_where is_special password),
)

all_met-evaluate :
    (password : List ℕ) (policy : PasswordPolicy)
    → all_met (evaluate_password_policy password policy) ≡ (
        leb policy.min_length (units password)
        && (all_met (flags policy password).0
            && (all_met (flags policy password).1
                && (all_met (counts policy password).0 && all_met (counts policy password).1))))
unfolding evaluate_password_policy
all_met-evaluate password policy =
    let (upper, lower) = flags policy password in
    let (digits, specials) = counts policy password in
    let third = all_met-append digits specials in
    let second = all_met-append lower (digits ++ specials) in
    let first = all_met-append upper (lower ++ (digits ++ specials)) in ground arith

none_failed-Meets :
    (password : List ℕ) (policy : PasswordPolicy)
    → get_failed_password_rules password policy ≡ []
    → Meets policy password
unfolding get_failed_password_rules
none_failed-Meets password policy h =
    let (met, short) = (none_failed_iff (evaluate_password_policy password policy) _).0 h in
    let each = all_met-evaluate password policy in
    record {
      long = ground arith;
      short = ground arith;
      upper =
          (flag_rule_iff policy.require_uppercase PasswordRuleKey.require_uppercase
              (any is_upper password)).0
            (ground arith);
      lower =
          (flag_rule_iff policy.require_lowercase PasswordRuleKey.require_lowercase
              (any is_lower password)).0
            (ground arith);
      digits =
          (count_rules_iff policy.require_number PasswordRuleKey.require_number
              PasswordRuleKey.min_numbers policy.min_numbers (count_where is_digit password)).0
            (ground arith);
      specials =
          (count_rules_iff policy.require_special PasswordRuleKey.require_special
              PasswordRuleKey.min_special policy.min_special (count_where is_special password)).0
            (ground arith);
    }

Meets-none_failed :
    (password : List ℕ) (policy : PasswordPolicy)
    → Meets policy password
    → get_failed_password_rules password policy ≡ []
unfolding get_failed_password_rules
Meets-none_failed password policy m =
    let each = all_met-evaluate password policy in
    let upper =
      (flag_rule_iff policy.require_uppercase PasswordRuleKey.require_uppercase
          (any is_upper password)).1
        m.upper in
    let lower =
      (flag_rule_iff policy.require_lowercase PasswordRuleKey.require_lowercase
          (any is_lower password)).1
        m.lower in
    let digits =
      (count_rules_iff policy.require_number PasswordRuleKey.require_number
          PasswordRuleKey.min_numbers policy.min_numbers (count_where is_digit password)).1
        m.digits in
    let specials =
      (count_rules_iff policy.require_special PasswordRuleKey.require_special
          PasswordRuleKey.min_special policy.min_special (count_where is_special password)).1
        m.specials in
    let long = m.long in
    let short = m.short in
    (none_failed_iff (evaluate_password_policy password policy) _).1 (ground arith, ground arith)

-- A password is accepted exactly when it has what the policy asks for, and no more than 256 units.
pub validate_password_iff :
    (password : String) (policy : PasswordPolicy)
    → (validate_password_or_throw password policy ≡ ok tt) ↔ Meets policy (codes password)
unfolding validate_password_or_throw
validate_password_iff password policy = (
  λ h. none_failed-Meets (codes password) policy (ground arith),
  λ m. let none_failed = Meets-none_failed (codes password) policy m in ground arith,
)
