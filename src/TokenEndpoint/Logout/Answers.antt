-- ===== src/TokenEndpoint/Logout/Answers.antt =====
-- What a logout answers and leaves: `handleOauthLogout` of
-- apps/auth-server/src/token/token.controller.ts.
use sassy_auth.Common.{
  ℕ, String, some, List, [], not, ◌&&◌, count_where, filter, Exception, ◌≡◌, ◌⊎◌, ok, err,
}
use sassy_auth.Db.{SaApp, Db}
use sassy_auth.Platform.{Platform}
use sassy_auth.Queries.{find_app}
use sassy_auth.RedirectUri.{registered, post_logout, Matches}
use sassy_auth.RefreshToken.{is_live, Table}
use sassy_auth.RefreshToken.Revocation.{is_grant_of}
use sassy_auth.TokenEndpoint.Authorize.{unless_empty}
use sassy_auth.World.{World}
use mathlib.Core.List.{Memᴰ}
use sassy_auth.TokenEndpoint.Logout.{
  LogoutRequest, HintClaims, LogoutCalls, LogoutRedirect, logged_out, to_relying_party,
  verify_access_token,
}

module _ (p : Platform) (calls : LogoutCalls) (q : LogoutRequest) where
  -- No refresh token of the subject is live for the app, and the other rows are as they were.
  pub record IsRevoked (now : ℕ) (c : HintClaims) (before after : Table) : Type 0 where
    pub hint : verify_access_token p calls q q.id_token_hint ≡ some c
    pub none_live : count_where (λ x. is_grant_of c.sub c.aud x && is_live x) after ≡ 0
    pub others :
        filter (λ x. not (is_grant_of c.sub c.aud x)) after
        ≡ filter (λ x. not (is_grant_of c.sub c.aud x)) before

  -- Who a browser is sent back to: the hint names the app, and the app registered the URI.
  pub record IsReturned (now : ℕ) (w w' : World) : Type 0 where
    pub claims : HintClaims
    pub app : SaApp
    pub revoked : IsRevoked now claims w.refresh w'.refresh
    pub found : find_app claims.aud w'.db ≡ some app
    pub listed :
        (c : String) × Memᴰ c (registered app.redirects post_logout)
        × Matches p.parse_url q.post_logout_redirect_uri c

  -- The redirect: the page of the console, or the URI of the request with its state.
  abbrev pub Leaves : ℕ → World → World → LogoutRedirect → Type 0
  Leaves now w w' r =
      (r ≡ logged_out)
      ⊎ ((r ≡ to_relying_party q.post_logout_redirect_uri (unless_empty "state" q.state))
          × IsReturned now w w')

  -- What the redirect leaves: it may have revoked the refresh tokens that the hint names.
  pub record IsRedirected (now : ℕ) (w w' : World) (r : LogoutRedirect) : Type 0 where
    pub db : w'.db ≡ w.db
    pub codes : w'.codes ≡ w.codes
    pub refresh :
        (w'.refresh ≡ w.refresh) ⊎ ((c : HintClaims) × IsRevoked now c w.refresh w'.refresh)
    pub leaves : Leaves now w w' r

  -- `signOut` answered, or it threw and no cookie is set.
  abbrev pub IsSignedOut : Db → List String → Db → Type 0
  IsSignedOut db cookies db' =
      (calls.sign_out db ≡ (ok cookies, db'))
      ⊎ ((e : Exception) × (calls.sign_out db ≡ (err e, db')) × (cookies ≡ []))
