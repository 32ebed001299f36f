-- ===== src/Apps/Valid.antt =====
-- What holds of every app.
use sassy_auth.Common.{
  ℕ, String, Option, none, some, List, Memᴰ, ⊤, ◌≡◌, sym, subst, inl, inr, ◌==◌, All, update_where,
  mem-update_where, ==_iff,
}
use sassy_auth.RedirectUri.{Url}
use sassy_auth.Db.{SaApp, SaOrg, SaRole}
use sassy_auth.Apps.Redirects.{IsHttp, Unrepeated}
use sassy_auth.Apps.Overrides.{IsSane, IsSafe}

-- The id, where there is one, is that of an organisation of the app.
abbrev pub OrgOf : List SaOrg → ℕ → Option ℕ → Type 0
OrgOf orgs app_id none = ⊤
OrgOf orgs app_id (some i) = (o : SaOrg) × Memᴰ o orgs × (o.id ≡ i) × (o.app_id ≡ app_id)

abbrev pub RoleOf : List SaRole → ℕ → Option ℕ → Type 0
RoleOf roles app_id none = ⊤
RoleOf roles app_id (some i) = (r : SaRole) × Memᴰ r roles × (r.id ≡ i) × (r.app_id ≡ app_id)

abbrev pub Holds : {A : Type 0} → (A → Type 0) → Option A → Type 0
Holds P none = ⊤
Holds P (some a) = P a

module _ (parse_url : String → Option Url) where
  pub record IsValidApp (orgs : List SaOrg) (roles : List SaRole) (a : SaApp) : Type 0 where
    pub webs : All (IsHttp parse_url) a.redirects.redirect_uris
    pub once : Unrepeated a.redirects.redirect_uris
    pub default_org : OrgOf orgs a.id a.default_org_id
    pub default_role : RoleOf roles a.id a.default_role_id
    pub policy : Holds IsSane a.password_policy_override
    pub branding : Holds IsSafe a.activation.email_override
    pub webhook : a.activation.webhook_url ≡ none → a.activation.webhook_secret ≡ none

  -- A change of the row of an id keeps what holds of it.
  abbrev pub Keeps : List SaOrg → List SaRole → ℕ → (SaApp → SaApp) → Type 0
  Keeps orgs roles i f =
      (a : SaApp) → a.id ≡ i → IsValidApp orgs roles a → IsValidApp orgs roles (f a)

  -- The same of the rows of a table.
  abbrev pub KeepsAmong : List SaApp → List SaOrg → List SaRole → ℕ → (SaApp → SaApp) → Type 0
  KeepsAmong apps orgs roles i f =
      (a : SaApp) → Memᴰ a apps → a.id ≡ i → IsValidApp orgs roles a → IsValidApp orgs roles (f a)

  pub update_where-IsValid :
      (orgs : List SaOrg) (roles : List SaRole) (i : ℕ) (f : SaApp → SaApp) (apps : List SaApp)
      → KeepsAmong apps orgs roles i f
      → ((a : SaApp) → Memᴰ a apps → IsValidApp orgs roles a)
      → (a : SaApp) → Memᴰ a (update_where (λ a. a.id == i) f apps)
      → IsValidApp orgs roles a
  update_where-IsValid orgs roles i f apps keeps valid a m =
      let (x, k, changed) = mem-update_where (λ a. a.id == i) f a apps m in
      elim changed [
        | inl (picked, e) ↦
            subst (IsValidApp orgs roles) (sym e) (keeps x k ((==_iff x.id i).0 picked) (valid x k))
        | inr (left, e) ↦ subst (IsValidApp orgs roles) (sym e) (valid x k)
      ]
