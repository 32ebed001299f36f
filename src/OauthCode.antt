-- ===== src/OauthCode.antt =====
-- apps/auth-server/src/token/oauth.service.ts and oauth-code-cleanup.service.ts over the table
-- SaOauthCode. The random code, the clock and the S256 transformation of a verifier are arguments.
pub mod Exchange
pub mod Sweep
use sassy_auth.Common.{
  ℕ, ◌+◌, ◌*◌, String, Bool, true, false, not, ◌&&◌, ◌||◌, Option, none, some, List, [], ◌∷◌, ⊤,
  ◌==◌, ◌===◌, ltb, is_some, is_truthy, if◌then◌else◌, find?, any, delete_where, count_where, plain,
  Exception, unauthorized, prisma_error, p2002, p2025, is_prisma_code, Result, ok, err, Action,
  ◌>>=◌, ◌>>◌, pure, throw, gets, or_throw, throw_if, commit, try_catch,
}
use sassy_auth.Json.{JsonText, safe_parse_amr}

pub data ChallengeMethod : Type 0 where
  s256 : ChallengeMethod

pub record SaOauthCode : Type 0 where
  pub code : String
  pub user_id : String
  pub app_public_id : String
  pub redirect_uri : String
  pub code_challenge : Option String
  pub code_challenge_method : Option ChallengeMethod
  pub amr : String
  pub nonce : Option String
  pub scope : String
  pub auth_time : ℕ
  pub idp : Option String
  pub expires_at : ℕ

abbrev pub Table : Type 0
Table = List SaOauthCode

abbrev pub code_ttl_ms : ℕ
code_ttl_ms = 5 * 60 * 1000

-- What `exchangeCode` answers.
pub record Exchanged : Type 0 where
  pub user_id : String
  pub app_public_id : String
  pub amr : List String
  pub nonce : Option String
  pub scope : String
  pub auth_time : ℕ
  pub had_challenge : Bool
  pub idp : Option String

abbrev pub has_code : String → SaOauthCode → Bool
has_code c row = row.code === c

-- `create`: the primary key is the code.
unfoldable pub create : SaOauthCode → Table → Result (⊤ × Table)
create row t = if any (has_code row.code) t then err (prisma_error p2002) else ok (tt, row ∷ t)

-- `delete({ where: { code } })`: it answers the row, or throws P2025.
unfoldable pub delete : String → Table → Result (SaOauthCode × Table)
delete code t = elim (find? (has_code code) t) [
  | none ↦ err (prisma_error p2025)
  | some row ↦ ok (row, delete_where (has_code code) t)
]

abbrev pub invalid_grant : Exception
invalid_grant = unauthorized (plain "invalid_grant")

abbrev pub unauthorized_client : Exception
unauthorized_client = unauthorized (plain "unauthorized_client")

-- The arguments of `generateCode`.
pub record CodeRequest : Type 0 where
  pub user_id : String
  pub app_public_id : String
  pub redirect_uri : String
  pub code_challenge : Option String
  pub code_challenge_method : Option ChallengeMethod
  pub amr : List String
  pub nonce : Option String
  pub scope : String
  pub auth_time : ℕ
  pub idp : Option String

-- The row that `generateCode` writes.
unfoldable pub generated : JsonText → CodeRequest → String → ℕ → SaOauthCode
generated json request code now = record {
  code = code;
  user_id = request.user_id;
  app_public_id = request.app_public_id;
  redirect_uri = request.redirect_uri;
  code_challenge = request.code_challenge;
  code_challenge_method = request.code_challenge_method;
  amr = json.stringify request.amr;
  nonce = request.nonce;
  scope = request.scope;
  auth_time = request.auth_time;
  idp = request.idp;
  expires_at = now + code_ttl_ms;
}

-- `generateCode`: `code` is the random value, `now` the clock.
unfoldable pub generate_code : JsonText → CodeRequest → String → ℕ → Action Table String
generate_code json request code now = do
  commit (create (generated json request code now))
  pure code

-- The comparison of the stored challenge with the verifier's transformation.
unfoldable pub passes_pkce : (String → String) → Option String → Option String → Bool
passes_pkce s256_of none verifier = true
passes_pkce s256_of (some challenge) none = if challenge === "" then true else false
passes_pkce s256_of (some challenge) (some verifier) =
    if challenge === ""
    then true
    else if verifier === ""
    then false
    else challenge === s256_of verifier

unfoldable pub exchanged : JsonText → SaOauthCode → Exchanged
exchanged json entry = record {
  user_id = entry.user_id;
  app_public_id = entry.app_public_id;
  amr = safe_parse_amr json entry.amr;
  nonce = entry.nonce;
  scope = entry.scope;
  auth_time = entry.auth_time;
  had_challenge = is_some entry.code_challenge;
  idp = entry.idp;
}

-- `exchangeCode`: the row is deleted first, so that every outcome consumes the code.
unfoldable pub exchange_code :
    JsonText
    → (String → String)
    → String
    → String
    → String
    → Option String
    → ℕ
    → Action Table Exchanged
exchange_code json s256_of code app_public_id redirect_uri verifier now = do
  entry ←
      try_catch (commit (delete code))
        (λ e. if is_prisma_code e p2025 then throw invalid_grant else throw e)
  throw_if (not (entry.app_public_id === app_public_id)) unauthorized_client
  throw_if (ltb entry.expires_at now) invalid_grant
  throw_if (not (entry.redirect_uri === redirect_uri)) invalid_grant
  throw_if (not (passes_pkce s256_of entry.code_challenge verifier)) invalid_grant
  pure (exchanged json entry)

-- `sweep` of the cleanup service: what it answers, and what is left. The database call of the
-- model does not fail, so the branch that logs a failure and answers 0 is not reached.
unfoldable pub sweep : ℕ → Table → ℕ × Table
sweep now t =
    (count_where (λ row. ltb row.expires_at now) t, delete_where (λ row. ltb row.expires_at now) t)
