-- ===== src/RedirectUri.antt =====
-- apps/auth-server/src/token/redirect-uri.ts: which redirect URIs an app accepts. `URL` is the
-- platform's parser: a parameter, `none` where it throws.
use sassy_auth.Common.{
  String, Bool, true, false, ◌&&◌, Option, none, some, List, [], ◌∷◌, map, Memᴰ, ◌≡◌, ◌↔◌, inl, inr,
  arith, ◌===◌, filter, any, if◌then◌else◌, any_sound, any_complete, eq_iff, Option-cases,
  Exception, bad_request, plain, Result, ok, err, ⊤,
}

-- The parts of a URL that are compared; `host` includes the port.
pub record Url : Type 0 where
  pub protocol : String
  pub host : String
  pub pathname : String
  pub search : String
  pub origin : String

pub data Kind : Type 0 where
  login post_logout : Kind

abbrev pub same_kind : Kind → Kind → Bool
same_kind login login = true
same_kind post_logout post_logout = true
same_kind _ _ = false

pub record RedirectUri : Type 0 where
  pub uri : String
  pub kind : Kind

pub record RedirectUriApp : Type 0 where
  pub url : String
  pub redirect_uris : List RedirectUri

abbrev pub invalid_redirect_uri : Exception
invalid_redirect_uri = bad_request (plain "invalid_redirect_uri")

-- The comparison of two parsed URLs.
unfoldable pub same_url : Url → Url → Bool
same_url a b =
    a.protocol === b.protocol
    && a.host === b.host
    && a.pathname === b.pathname
    && a.search === b.search

-- `registered`
unfoldable pub registered : RedirectUriApp → Kind → List String
registered app kind = map (λ r. r.uri) (filter (λ r. same_kind r.kind kind) app.redirect_uris)

module _ (parse_url : String → Option Url) where
  -- `isExactMatch`
  unfoldable pub is_exact_match : String → String → Bool
  is_exact_match redirect_uri callback_url = elim (parse_url redirect_uri) [
    | none ↦ false
    | some a ↦ elim (parse_url callback_url) [ none ↦ false | some b ↦ same_url a b ]
  ]

  unfoldable pub same_origin : String → String → Bool
  same_origin redirect_uri url = elim (parse_url redirect_uri) [
    | none ↦ false
    | some a ↦ elim (parse_url url) [ none ↦ false | some b ↦ a.origin === b.origin ]
  ]

  abbrev pub accept_if : Bool → Result ⊤
  accept_if b = if b then ok tt else err invalid_redirect_uri

  -- The test of `assertRedirectUriAllowed` on the registered login URIs.
  unfoldable pub allowed_by : String → RedirectUriApp → List String → Bool
  allowed_by redirect_uri app [] = same_origin redirect_uri app.url
  allowed_by redirect_uri app (u ∷ us) = any (is_exact_match redirect_uri) (u ∷ us)

  -- `assertRedirectUriAllowed`
  unfoldable pub assert_redirect_uri_allowed : String → RedirectUriApp → Result ⊤
  assert_redirect_uri_allowed redirect_uri app =
      accept_if (allowed_by redirect_uri app (registered app login))

  -- `assertPostLogoutRedirectUriAllowed`
  unfoldable pub assert_post_logout_redirect_uri_allowed : String → RedirectUriApp → Result ⊤
  assert_post_logout_redirect_uri_allowed uri app =
      accept_if (any (is_exact_match uri) (registered app post_logout))

  -- Both texts parse, to URLs with the same protocol, host with port, path and query.
  abbrev pub Matches : String → String → Type 0
  Matches uri candidate =
      (a : Url) × (b : Url) × (parse_url uri ≡ some a)
      × (parse_url candidate ≡ some b)
      × (a.protocol ≡ b.protocol)
      × (a.host ≡ b.host)
      × (a.pathname ≡ b.pathname)
      × (a.search ≡ b.search)

  is_exact_match_iff :
      (uri candidate : String) → (is_exact_match uri candidate ≡ true) ↔ Matches uri candidate
  unfolding is_exact_match same_url
  is_exact_match_iff uri candidate = elim (Option-cases (parse_url uri)) [
    | inl bad ↦ ground arith
    | inr (a, ea) ↦ elim (Option-cases (parse_url candidate)) [
      | inl bad ↦ ground arith
      | inr (b, eb) ↦ ground (
        arith,
        eq_iff a.protocol b.protocol,
        eq_iff a.host b.host,
        eq_iff a.pathname b.pathname,
        eq_iff a.search b.search,
      )
    ]
  ]

  any_match_iff :
      (uri : String) (candidates : List String)
      → (any (is_exact_match uri) candidates ≡ true)
        ↔ ((c : String) × Memᴰ c candidates × Matches uri c)
  any_match_iff uri candidates = (
    λ h.
        let (c, m, e) = any_sound (is_exact_match uri) candidates h in
        (c, m, (is_exact_match_iff uri c).0 e),
    λ h. any_complete (is_exact_match uri) h.0 candidates h.1 ((is_exact_match_iff uri h.0).1 h.2),
  )

  accept_if_iff : (b : Bool) → (accept_if b ≡ ok tt) ↔ (b ≡ true)
  accept_if_iff true = ground arith
  accept_if_iff false = ground arith

  -- A post-logout URI is accepted exactly when it matches a registered one: without any, none is.
  pub assert_post_logout_iff :
      (uri : String) (app : RedirectUriApp)
      → (assert_post_logout_redirect_uri_allowed uri app ≡ ok tt)
        ↔ ((c : String) × Memᴰ c (registered app post_logout) × Matches uri c)
  unfolding assert_post_logout_redirect_uri_allowed
  assert_post_logout_iff uri app =
      let tested = accept_if_iff (any (is_exact_match uri) (registered app post_logout)) in
      let matched = any_match_iff uri (registered app post_logout) in
      (λ h. matched.0 (tested.0 h), λ h. tested.1 (matched.1 h))
