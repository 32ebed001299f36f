-- ===== src/TokenEndpoint/Authorize/Redeemed.antt =====
-- The authorization endpoint and the token endpoint together: who redeems a code that was issued.
use sassy_auth.Common.{ℕ, ◌+◌, ◌≤◌, ◌≡◌, Result}
use sassy_auth.Db.{SaApp, Db}
use sassy_auth.OauthCode.{code_ttl_ms}
use sassy_auth.OauthCode.Exchange.{Proves}
use sassy_auth.Platform.{Platform}
use sassy_auth.TokenService.{truthy_claim}
use sassy_auth.World.{World}
use sassy_auth.TokenEndpoint.{CodeRequest, TokenResponse, join_words}
use sassy_auth.TokenEndpoint.Authorize.{AuthorizeRequest, Visit, Redirect}
use sassy_auth.TokenEndpoint.Authorize.Handler.{granted_scopes}
use sassy_auth.TokenEndpoint.Authorize.Stages.{IsResolved}
use sassy_auth.TokenEndpoint.Authorize.Entry.{IsTokenOf}
use sassy_auth.TokenEndpoint.Authorize.Issued.{IsIssued}

module _ (p : Platform) (q : AuthorizeRequest) (v : Visit) where
  -- A code that was issued, and the token request that redeemed it.
  pub record IsRedeemed (w : World) (g : CodeRequest) (now : ℕ) (t : TokenResponse)
      (r : Result Redirect) (w' : World) : Type 0 where
    pub app : SaApp
    pub resolved : IsResolved p q w.db app
    pub issued : IsIssued p q v app w r w'
    pub same_app : app.public_id ≡ g.client.client_id
    pub same_redirect : q.redirect_uri ≡ g.redirect_uri
    pub in_time : now ≤ v.now + code_ttl_ms
    pub proved : Proves p.s256_of (truthy_claim q.code_challenge) g.code_verifier
    pub token : IsTokenOf p q v app issued.session issued.user issued.org w.db now t.access_token
    pub scope : t.scope ≡ join_words (granted_scopes p q app)
