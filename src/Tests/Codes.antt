-- ===== src/Tests/Codes.antt =====
-- Authorization codes of the sample deployment.
use sassy_auth.Common.{String, true, none, some, [], ◌∷◌, ◌≡◌, ◌↔◌, inr, refl, ok, arith, find?}
use sassy_auth.Json.{safe_parse_amr}
use sassy_auth.OauthCode.{
  SaOauthCode, Table, Exchanged, CodeRequest, s256, has_code, delete, generate_code, passes_pkce,
  exchanged, exchange_code, sweep,
}
use sassy_auth.OauthCode.Exchange.{IsBound, exchange_iff, exchange-generate}
use sassy_auth.OauthCode.Sweep.{exchange-sweep}
use sassy_auth.Tests.Data.{json}

abbrev s256_of : String → String
s256_of s = s

abbrev request : CodeRequest
request = record {
  user_id = "u2";
  app_public_id = "shop";
  redirect_uri = "https://shop/callback";
  code_challenge = some "verifier";
  code_challenge_method = some s256;
  amr = "pwd" ∷ [];
  nonce = some "n";
  scope = "openid orders";
  auth_time = 90;
  idp = none;
}

abbrev pub entry : SaOauthCode
entry = record {
  code = "code";
  user_id = "u2";
  app_public_id = "shop";
  redirect_uri = "https://shop/callback";
  code_challenge = some "verifier";
  code_challenge_method = some s256;
  amr = json.stringify ("pwd" ∷ []);
  nonce = some "n";
  scope = "openid orders";
  auth_time = 90;
  idp = none;
  expires_at = 300100;
}

-- The code, and an older one that has expired.
abbrev codes : Table
codes = entry ∷ record entry { code = "old"; expires_at = 50 } ∷ []

abbrev answer : Exchanged
answer = record {
  user_id = "u2";
  app_public_id = "shop";
  amr = "pwd" ∷ [];
  nonce = some "n";
  scope = "openid orders";
  auth_time = 90;
  had_challenge = true;
  idp = none;
}

exchange_iff_example :
    (e : SaOauthCode) × (find? (has_code "code") codes ≡ some e)
    × IsBound s256_of "shop" "https://shop/callback" (some "verifier") 200 e
    × (exchanged json e ≡ answer)
unfolding exchange_code delete passes_pkce exchanged safe_parse_amr
exchange_iff_example =
    (exchange_iff json s256_of "code" "shop" "https://shop/callback" (some "verifier") 200 codes
        answer).0
      refl

exchange-generate_example :
    (exchange_code json s256_of "code" "shop" "https://shop/callback"
      (some "verifier")
      200
      (generate_code json request "code" 100 []).1).0
    ≡ ok answer
exchange-generate_example =
    exchange-generate json s256_of request "code" (some "verifier") 100 200 [] refl (omega arith)
      (inr ("verifier", refl, λ e. cc, refl))

exchange-sweep_example :
    ((exchange_code json s256_of "code" "shop" "https://shop/callback"
        (some "verifier")
        200
        (sweep 150 codes).1).0
      ≡ ok answer)
    ↔ ((exchange_code json s256_of "code" "shop" "https://shop/callback"
          (some "verifier")
          200
          codes).0
        ≡ ok answer)
exchange-sweep_example =
    exchange-sweep json s256_of "code" "shop" "https://shop/callback" (some "verifier") 150 200
      codes answer (omega arith) (omega arith)
