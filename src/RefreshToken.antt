-- ===== src/RefreshToken.antt =====
-- apps/auth-server/src/token/refresh-token.service.ts over the table SaRefreshToken. The hash of a
-- token, the random bytes and the clock are arguments: the code takes them from node's crypto and
-- from Date.
pub mod Rows
pub mod Family
pub mod Rotation
pub mod Reuse
pub mod Revocation
pub mod Redeemed
use sassy_auth.Common.{
  ℕ, ◌+◌, ◌*◌, String, Bool, true, false, not, ◌&&◌, ◌||◌, Option, none, some, List, [], ◌∷◌, ⊤,
  ◌==◌, ◌===◌, ltb, is_some, if◌then◌else◌, find?, any, update_where, count_where, plain, Exception,
  unauthorized, prisma_error, p2002, Result, ok, err, Action, ◌>>=◌, ◌>>◌, pure, throw, gets,
  or_throw, throw_if, modify, commit,
}
use sassy_auth.Json.{JsonText, safe_parse_amr}

pub record SaRefreshToken : Type 0 where
  pub token_hash : String
  pub family_id : String
  pub sa_user_id : ℕ
  pub user_public_id : String
  pub org_public_id : String
  pub app_id : ℕ
  pub app_public_id : String
  pub scope : String
  pub amr : String
  pub idp : Option String
  pub auth_time : ℕ
  pub expires_at : ℕ
  pub absolute_expires_at : ℕ
  pub revoked_at : Option ℕ
  pub replaced_by_token_hash : Option String

abbrev pub Table : Type 0
Table = List SaRefreshToken

abbrev pub sliding_ttl_ms : ℕ
sliding_ttl_ms = 30 * 24 * 60 * 60 * 1000

abbrev pub absolute_ttl_ms : ℕ
absolute_ttl_ms = 90 * 24 * 60 * 60 * 1000

pub record IssueRefreshTokenParams : Type 0 where
  pub sa_user_id : ℕ
  pub user_public_id : String
  pub org_public_id : String
  pub app_id : ℕ
  pub app_public_id : String
  pub scope : String
  pub amr : List String
  pub idp : Option String
  pub auth_time : ℕ

pub record RotatedRefreshToken : Type 0 where
  pub token : String
  pub sa_user_id : ℕ
  pub user_public_id : String
  pub org_public_id : String
  pub app_id : ℕ
  pub app_public_id : String
  pub scope : String
  pub amr : List String
  pub idp : Option String
  pub auth_time : ℕ

abbrev pub invalid_grant : Exception
invalid_grant = unauthorized (plain "invalid_grant")

abbrev pub is_live : SaRefreshToken → Bool
is_live r = not (is_some r.revoked_at)

abbrev pub has_hash : String → SaRefreshToken → Bool
has_hash h r = r.token_hash === h

-- `create`: the primary key is the token's hash.
unfoldable pub create : SaRefreshToken → Table → Result (⊤ × Table)
create row t =
    if any (has_hash row.token_hash) t then err (prisma_error p2002) else ok (tt, row ∷ t)

-- `updateMany({ where: { …, revokedAt: null }, data: { revokedAt: now } })`
unfoldable pub revoke_where : (SaRefreshToken → Bool) → ℕ → Table → Table
revoke_where p now t =
    update_where (λ r. p r && is_live r) (λ r. record r { revoked_at = some now }) t

module _ (hash_token : String → String) where
  -- `rotate` up to the transaction: the row is read and tested, and a reused token burns its
  -- family.
  unfoldable pub rotate_check : String → String → ℕ → Action Table SaRefreshToken
  rotate_check presented app_public_id now = do
    row ← or_throw (← gets (find? (has_hash (hash_token presented)))) invalid_grant
    throw_if (not (row.app_public_id === app_public_id)) invalid_grant
    if is_some row.revoked_at
        then (modify (revoke_where (λ r. r.family_id === row.family_id) now) >> throw invalid_grant)
        else (throw_if (ltb row.expires_at now || ltb row.absolute_expires_at now) invalid_grant
            >> pure row)

  -- The row that replaces `row`.
  unfoldable pub successor : SaRefreshToken → String → ℕ → SaRefreshToken
  successor row new_token now = record row {
    token_hash = hash_token new_token;
    expires_at = now + sliding_ttl_ms;
    revoked_at = none;
    replaced_by_token_hash = none;
  }

  -- The transaction's `updateMany`, on the presented token if it is still live.
  unfoldable pub consume : String → String → ℕ → Table → Table
  consume presented new_token now t =
      update_where (λ r. has_hash (hash_token presented) r && is_live r)
        (λ r. record r {
          revoked_at = some now;
          replaced_by_token_hash = some (hash_token new_token);
        })
        t

  -- The transaction: it throws unless exactly one live row was consumed.
  unfoldable pub rotate_tx : SaRefreshToken → String → String → ℕ → Table → Result (⊤ × Table)
  rotate_tx row presented new_token now t =
      let created = create (successor row new_token now) (consume presented new_token now t) in
      if count_where (λ r. has_hash (hash_token presented) r && is_live r) t == 1
      then created
      else err invalid_grant

unfoldable pub rotated : JsonText → SaRefreshToken → String → RotatedRefreshToken
rotated json row new_token = record {
  token = new_token;
  sa_user_id = row.sa_user_id;
  user_public_id = row.user_public_id;
  org_public_id = row.org_public_id;
  app_id = row.app_id;
  app_public_id = row.app_public_id;
  scope = row.scope;
  amr = safe_parse_amr json row.amr;
  idp = row.idp;
  auth_time = row.auth_time;
}

module _ (json : JsonText) (hash_token : String → String) where
  -- The row that `issue` writes.
  unfoldable pub issued : IssueRefreshTokenParams → String → String → ℕ → SaRefreshToken
  issued params token family now = record {
    token_hash = hash_token token;
    family_id = family;
    sa_user_id = params.sa_user_id;
    user_public_id = params.user_public_id;
    org_public_id = params.org_public_id;
    app_id = params.app_id;
    app_public_id = params.app_public_id;
    scope = params.scope;
    amr = json.stringify params.amr;
    idp = params.idp;
    auth_time = params.auth_time;
    expires_at = now + sliding_ttl_ms;
    absolute_expires_at = now + absolute_ttl_ms;
    revoked_at = none;
    replaced_by_token_hash = none;
  }

  -- `issue`: `token` and `family` are the random values, `now` the clock.
  unfoldable pub issue : IssueRefreshTokenParams → String → String → ℕ → Action Table String
  issue params token family now = do commit (create (issued params token family now)); pure token

  -- The rest of `rotate`, on the row that was read before.
  unfoldable pub rotate_commit :
      SaRefreshToken → String → String → ℕ → Action Table RotatedRefreshToken
  rotate_commit row presented new_token now = do
    commit (rotate_tx hash_token row presented new_token now)
    pure (rotated json row new_token)

  unfoldable pub rotate : String → String → String → ℕ → Action Table RotatedRefreshToken
  rotate presented app_public_id new_token now = do
    row ← rotate_check hash_token presented app_public_id now
    rotate_commit row presented new_token now

unfoldable pub revoke_for_user_app : String → String → ℕ → Action Table ⊤
revoke_for_user_app user_public_id app_public_id now = modify (
    revoke_where (λ r. r.user_public_id === user_public_id && r.app_public_id === app_public_id)
      now)

unfoldable pub revoke_for_user : ℕ → ℕ → Action Table ⊤
revoke_for_user sa_user_id now = modify (revoke_where (λ r. r.sa_user_id == sa_user_id) now)
