-- ===== src/Tests/SignIns.antt =====
-- Sign-ins of the sample deployment.
use sassy_auth.Common.{◌*◌, ℕ, String, true, false, none, some, List, [], ◌∷◌, ◌≡◌, ◌≤◌, arith}
use sassy_auth.SignIn.{ProviderRow, google, apple, ShouldPromptParams}
use sassy_auth.Common.{ok}
use sassy_auth.Consent.{ConsentAppUrls, SaUserConsent, resolve_outstanding_consent, record_consent}
use sassy_auth.Consent.Recording.{resolve_outstanding_consent-record}
use sassy_auth.RateLimit.Store.{Buckets, lookup}
use sassy_auth.RateLimit.Bound.{run, budget, run-le-budget}

abbrev prompt : ShouldPromptParams
prompt = record {
  two_factor_enabled = false;
  prompted_at = some 1000;
  now = 86401001;
  interval_days = 1;
  prompt_enabled = true;
}

-- Google is on for all apps, but off for app 2.
abbrev rows : List ProviderRow
rows =
    record { app_id = none; provider = google; enabled = true }
    ∷ record { app_id = some 2; provider = google; enabled = false }
    ∷ record { app_id = none; provider = apple; enabled = true }
    ∷ []

abbrev urls : ConsentAppUrls
urls = record { privacy_policy_url = some "p"; terms_url = some "t"; gdpr_url = none }

resolve_outstanding_consent-record_example :
    (rows' : List SaUserConsent) × (record_consent 2 2
        (resolve_outstanding_consent (λ c. true) 2 2 urls (some "DE") [])
        []
      ≡ ok (tt, rows'))
    × (resolve_outstanding_consent (λ c. true) 2 2 urls (some "DE") rows' ≡ [])
resolve_outstanding_consent-record_example =
    resolve_outstanding_consent-record (λ c. true) 2 2 urls (some "DE") []

abbrev requests : List (String × ℕ)
requests = ("me", 10) ∷ ("you", 11) ∷ ("me", 12) ∷ ("me", 13) ∷ []

-- One of the two requests of the window is used up.
abbrev begun : Buckets
begun = ("me", record { count = 1; window_start = 5 }) ∷ []

run-le-budget_example :
    ((run 2 60 "me" requests begun).0 ≤ budget 2 (lookup "me" begun))
    × ((run 2 60 "me" requests begun).0 ≤ 2 * 2)
run-le-budget_example = run-le-budget 2 60 10 "me" requests begun (omega arith) (omega arith)

-- A bucket of two windows ago is evicted, and decides nothing.
abbrev stale : Buckets
stale = ("me", record { count = 2; window_start = 0 }) ∷ []
