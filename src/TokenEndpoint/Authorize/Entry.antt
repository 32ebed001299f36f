-- ===== src/TokenEndpoint/Authorize/Entry.antt =====
-- The row of a code that /authorize issues, and the payload of a token for its user.
use sassy_auth.Common.{ℕ, ◌+◌, ◌/◌, String, some, ◌≡◌, refl, arith, ok}
use sassy_auth.Db.{SaApp, SaUser, SaOrg, Db}
use sassy_auth.OauthCode.{SaOauthCode, generated}
use sassy_auth.Platform.{Platform, AccessPayload}
use sassy_auth.TokenClaims.{resolve_permissions, resolve_roles}
use sassy_auth.TokenEndpoint.{join_words}
use sassy_auth.TokenService.{IssueJwtParams, truthy_claim, amr_claim, issue_jwt, access_payload}
use sassy_auth.TokenService.Scopes.{issue_jwt-eq-ok}
use sassy_auth.TokenEndpoint.Authorize.{AuthorizeRequest, AuthSession, Visit, derive_auth_methods}
use sassy_auth.TokenEndpoint.Authorize.Handler.{code_request, granted_scopes}

module _ (p : Platform) (q : AuthorizeRequest) (v : Visit) where
  -- The row of a code says whom and what it is for.
  pub record IsEntry (app : SaApp) (s : AuthSession) (user : SaUser) (entry : SaOauthCode)
      : Type 0 where
    pub code : entry.code ≡ v.new_code
    pub user_id : entry.user_id ≡ user.public_id
    pub app_public_id : entry.app_public_id ≡ app.public_id
    pub redirect_uri : entry.redirect_uri ≡ q.redirect_uri
    pub code_challenge : entry.code_challenge ≡ truthy_claim q.code_challenge
    pub nonce : entry.nonce ≡ truthy_claim (some q.nonce)
    pub scope : entry.scope ≡ join_words (granted_scopes p q app)
    pub amr :
        entry.amr ≡ p.json.stringify (derive_auth_methods s.sign_in_method s.two_factor_enabled).0
    pub expires_at : entry.expires_at ≡ v.now + 300000

  -- The row that is written is one.
  pub generated-IsEntry :
      (app : SaApp) (s : AuthSession) (user : SaUser)
      → IsEntry app s user (generated p.json (code_request p q v app s user) v.new_code v.now)
  unfolding generated code_request
  generated-IsEntry app s user = record {
    code = refl;
    user_id = refl;
    app_public_id = refl;
    redirect_uri = refl;
    code_challenge = refl;
    nonce = refl;
    scope = refl;
    amr = refl;
    expires_at = refl;
  }

  -- The token is signed for a user of an organisation, and a session, and lists what the user may do.
  pub record IsTokenOf (app : SaApp) (s : AuthSession) (user : SaUser) (org : SaOrg) (db : Db)
      (now : ℕ) (token : String) : Type 0 where
    pub payload : AccessPayload
    pub signed : token ≡ p.sign_access payload
    pub sub : payload.sub ≡ user.public_id
    pub aud : payload.aud ≡ app.public_id
    pub org_claim : payload.org ≡ org.public_id
    pub scope : payload.scope ≡ join_words (granted_scopes p q app)
    pub amr : payload.amr ≡ amr_claim (derive_auth_methods s.sign_in_method s.two_factor_enabled).0
    pub idp :
        payload.idp ≡ truthy_claim (derive_auth_methods s.sign_in_method s.two_factor_enabled).1
    pub exp : payload.exp ≡ now / 1000 + 3600
    pub permissions : resolve_permissions p.sorting user.id app.id db ≡ (ok payload.permissions, db)
    pub roles : resolve_roles p.sorting user.id app.id db ≡ (ok payload.roles, db)

  abbrev pub session_params : SaApp → AuthSession → SaUser → SaOrg → IssueJwtParams
  session_params app s user org = record {
    sa_user_id = user.id;
    user_public_id = user.public_id;
    org_public_id = org.public_id;
    app_public_id = app.public_id;
    app_id = app.id;
    scope = join_words (granted_scopes p q app);
    amr = (derive_auth_methods s.sign_in_method s.two_factor_enabled).0;
    idp = (derive_auth_methods s.sign_in_method s.two_factor_enabled).1;
  }

  pub issue_jwt-IsTokenOf :
      (app : SaApp) (s : AuthSession) (user : SaUser) (org : SaOrg) (db : Db) (now : ℕ)
      (token : String)
      → (issue_jwt p (session_params app s user org) now db).0 ≡ ok token
      → IsTokenOf app s user org db now token
  unfolding access_payload
  issue_jwt-IsTokenOf app s user org db now token h =
      let params = session_params app s user org in
      let (permissions, roles, listed, held, signed, _) =
        issue_jwt-eq-ok p params now db (issue_jwt p params now db).1 token (ground arith) in
      record {
        payload = access_payload p params now permissions roles;
        signed = signed;
        sub = refl;
        aud = refl;
        org_claim = refl;
        scope = refl;
        amr = refl;
        idp = refl;
        exp = refl;
        permissions = listed;
        roles = held;
      }
