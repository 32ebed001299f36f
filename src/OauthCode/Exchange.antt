-- ===== src/OauthCode/Exchange.antt =====
-- An authorization code is good for one exchange, and only for the request that it was bound to.
use sassy_auth.Common.{
  ℕ, String, some, none, true, false, ◌≡◌, refl, arith, Option, find?, delete_where, eq_iff,
  is_truthy, ◌≤◌, ◌∷◌, ◌⊎◌, [], ◌≢◌, Option-cases, any, err, ok, inl, ◌+◌, ◌↔◌, inr, is_some,
}
use sassy_auth.Json.{JsonText, safe_parse_amr-stringify}
use sassy_auth.OauthCode.{
  SaOauthCode, Table, Exchanged, has_code, create, delete, invalid_grant, CodeRequest, generated,
  generate_code, passes_pkce, exchanged, exchange_code, code_ttl_ms,
}

pub find-delete_where :
    (code : String) (t : Table) → find? (has_code code) (delete_where (has_code code) t) ≡ none
find-delete_where code [] = refl
find-delete_where code (r ∷ t) = ground (arith, find-delete_where code t)

delete-of_none :
    (code : String) (t : Table)
    → find? (has_code code) t ≡ none
    → delete_where (has_code code) t ≡ t
delete-of_none code [] h = refl
delete-of_none code (r ∷ t) h = ground (arith, delete-of_none code t)

-- The stored challenge fits the verifier: there is none, or it is the transformation of a verifier
-- that was given.
abbrev pub Proves : (String → String) → Option String → Option String → Type 0
Proves s256_of challenge verifier =
    (is_truthy challenge ≡ false)
    ⊎ ((v : String) × (verifier ≡ some v) × (v ≢ "") × (challenge ≡ some (s256_of v)))

passes_pkce_iff :
    (s256_of : String → String) (challenge verifier : Option String)
    → ((passes_pkce s256_of challenge verifier ≡ true) → Proves s256_of challenge verifier)
      × (Proves s256_of challenge verifier → passes_pkce s256_of challenge verifier ≡ true)
unfolding passes_pkce
passes_pkce_iff s256_of none verifier = ground arith
passes_pkce_iff s256_of (some c) none = ground (arith, eq_iff c "")
passes_pkce_iff s256_of (some c) (some v) =
    ground (arith, eq_iff c "", eq_iff v "", eq_iff c (s256_of v))

-- The request presents what the code was bound to, in time.
pub record IsBound (s256_of : String → String) (app redirect_uri : String)
    (verifier : Option String) (now : ℕ) (entry : SaOauthCode) : Type 0 where
  pub of_app : entry.app_public_id ≡ app
  pub in_time : now ≤ entry.expires_at
  pub same_redirect : entry.redirect_uri ≡ redirect_uri
  pub proved : Proves s256_of entry.code_challenge verifier

module _ (json : JsonText) (s256_of : String → String) (code app redirect_uri : String)
    (verifier : Option String) (now : ℕ) where
  -- Whatever an exchange answers, afterwards the code is gone and every other code is still there.
  pub exchange_consumes :
      (t : Table)
      → (exchange_code json s256_of code app redirect_uri verifier now t).1
        ≡ delete_where (has_code code) t
  unfolding exchange_code delete
  exchange_consumes t = elim (Option-cases (find? (has_code code) t)) [
    | inl missing ↦ ground (arith, delete-of_none code t missing)
    | inr (entry, found) ↦ ground arith
  ]

  -- An exchange succeeds exactly when the code exists and the request is the one it was bound to:
  -- same app, byte for byte the same redirect URI, not expired, and PKCE proved where the code has
  -- a challenge. It answers what the code was issued with.
  pub exchange_iff :
      (t : Table) (x : Exchanged)
      → ((exchange_code json s256_of code app redirect_uri verifier now t).0 ≡ ok x) ↔ (
          (entry : SaOauthCode) × (find? (has_code code) t ≡ some entry)
          × IsBound s256_of app redirect_uri verifier now entry
          × (exchanged json entry ≡ x))
  unfolding exchange_code delete
  exchange_iff t x = elim (Option-cases (find? (has_code code) t)) [
    | inl missing ↦ ground arith
    | inr (entry, found) ↦ ground (
      arith,
      eq_iff entry.app_public_id app,
      eq_iff entry.redirect_uri redirect_uri,
      passes_pkce_iff s256_of entry.code_challenge verifier,
    )
  ]

exchange_missing :
    (json : JsonText) (s256_of : String → String) (code app uri : String) (verifier : Option String)
    (now : ℕ) (t : Table)
    → find? (has_code code) t ≡ none
    → exchange_code json s256_of code app uri verifier now t ≡ (err invalid_grant, t)
unfolding exchange_code delete
exchange_missing json s256_of code app uri verifier now t missing = ground arith

generate_fresh :
    (json : JsonText) (request : CodeRequest) (code : String) (now : ℕ) (t : Table)
    → any (has_code code) t ≡ false
    → (generate_code json request code now t).1 ≡ generated json request code now ∷ t
unfolding generate_code create generated
generate_fresh json request code now t fresh = ground arith

find-generated :
    (json : JsonText) (request : CodeRequest) (code : String) (now : ℕ) (t : Table)
    → find? (has_code code) (generated json request code now ∷ t)
      ≡ some (generated json request code now)
unfolding generated
find-generated json request code now t = ground (arith, eq_iff code code)

-- A code is good for one exchange: whatever the first one answered, a second one with the same
-- code, by whomever and whenever, fails with `invalid_grant` and changes nothing.
pub exchange_twice :
    (json : JsonText) (s256_of : String → String) (code app app' uri uri' : String)
    (verifier verifier' : Option String) (now later : ℕ) (t : Table)
    → let t' = (exchange_code json s256_of code app uri verifier now t).1 in
      exchange_code json s256_of code app' uri' verifier' later t' ≡ (err invalid_grant, t')
exchange_twice json s256_of code app app' uri uri' verifier verifier' now later t =
    rw (exchange_consumes json s256_of code app uri verifier now t)
      (exchange_missing json s256_of code app' uri' verifier' later _ (find-delete_where code t))

-- The code that was just generated, presented by its app with its redirect URI and a verifier that
-- proves its challenge no later than its five minutes, is exchanged for what it was issued with.
pub exchange-generate :
    (json : JsonText) (s256_of : String → String) (request : CodeRequest) (code : String)
    (verifier : Option String) (now later : ℕ) (t : Table)
    → any (has_code code) t ≡ false
    → later ≤ now + code_ttl_ms
    → Proves s256_of request.code_challenge verifier
    → (exchange_code json s256_of code request.app_public_id request.redirect_uri verifier later
        (generate_code json request code now t).1).0
      ≡ ok (record {
        user_id = request.user_id;
        app_public_id = request.app_public_id;
        amr = request.amr;
        nonce = request.nonce;
        scope = request.scope;
        auth_time = request.auth_time;
        had_challenge = is_some request.code_challenge;
        idp = request.idp;
      })
unfolding generated exchanged
exchange-generate json s256_of request code verifier now later t fresh timely proved =
    rw (generate_fresh json request code now t fresh) (
      (exchange_iff json s256_of code request.app_public_id request.redirect_uri verifier later _
          _).1
        (
          generated json request code now,
          find-generated json request code now t,
          record { of_app = refl; in_time = timely; same_redirect = refl; proved = proved },
          ground (arith, safe_parse_amr-stringify json request.amr),
        ))
