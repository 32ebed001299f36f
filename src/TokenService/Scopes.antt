-- ===== src/TokenService/Scopes.antt =====
-- What scopes a request is granted, and what an access token says.
use sassy_auth.Common.{
  ℕ, String, true, List, Memᴰ, ◌≡◌, ◌↔◌, inl, inr, some, arith, not, ◌===◌, filter, mem-filter_iff,
  contains_iff, eq_iff, ◌≢◌, ok, ◌>>=◌, pure, Bool-cases, >>=-eq-ok,
}
use sassy_auth.Db.{Db}
use sassy_auth.Platform.{Platform}
use sassy_auth.TokenClaims.{
  resolve_permissions, resolve_roles, resolve_permissions-reads, resolve_roles-reads,
}
use sassy_auth.TokenService.{
  asks_for, parse_scopes, supported_scopes, IssueJwtParams, issue_jwt, access_payload,
}

asks_for_iff :
    (words : String → List String) (scope s : String)
    → (asks_for words scope s ≡ true) ↔ (Memᴰ s (words scope) × (s ≢ ""))
unfolding asks_for
asks_for_iff words scope s =
    let listed = contains_iff (filter (λ w. not (w === "")) (words scope)) s in
    let kept = mem-filter_iff (λ w. not (w === "")) s (words scope) in
    (
      λ h. let (m, e) = kept.0 (listed.0 h) in (m, ground (arith, eq_iff s "")),
      λ h. listed.1 (kept.1 (h.0, ground (arith, eq_iff s "", h.1))),
    )

-- A request is granted exactly the supported scopes among its words; others are dropped.
pub parse_scopes_iff :
    (words : String → List String) (requested s : String)
    → requested ≢ ""
    → Memᴰ s (parse_scopes words (some requested))
      ↔ (Memᴰ s supported_scopes × Memᴰ s (words requested) × (s ≢ ""))
unfolding parse_scopes
parse_scopes_iff words requested s given =
    let kept = mem-filter_iff (asks_for words requested) s supported_scopes in
    let asked = asks_for_iff words requested s in
    elim (Bool-cases (requested === "")) [
      | inl empty ↦ elim (given ((eq_iff requested "").0 empty)) [ ]
      | inr full ↦ rw full (
        λ m. let (a, b) = kept.0 m in let (c, d) = asked.0 b in (a, c, d),
        λ h. kept.1 (h.0, asked.1 (h.1, h.2)),
      )
    ]

-- An access token lists the permissions and roles that its user has for the app, and issuing it
-- changes nothing.
pub issue_jwt-eq-ok :
    (p : Platform) (params : IssueJwtParams) (now : ℕ) (db db' : Db) (token : String)
    → issue_jwt p params now db ≡ (ok token, db')
    → (permissions roles : List String) × (resolve_permissions p.sorting params.sa_user_id
          params.app_id db
        ≡ (ok permissions, db))
      × (resolve_roles p.sorting params.sa_user_id params.app_id db ≡ (ok roles, db))
      × (token ≡ p.sign_access (access_payload p params now permissions roles))
      × (db' ≡ db)
unfolding issue_jwt
issue_jwt-eq-ok p params now db db' token h =
    let sign = λ (permissions roles : List String).
      p.sign_access (access_payload p params now permissions roles) in
    let resolve = resolve_roles p.sorting params.sa_user_id params.app_id in
    let (permissions, s, first, h₁) =
      >>=-eq-ok (resolve_permissions p.sorting params.sa_user_id params.app_id)
        (λ permissions. resolve >>= λ roles. pure (sign permissions roles)) db db' token h in
    let (roles, s', second, h₂) =
      >>=-eq-ok resolve (λ roles. pure (sign permissions roles)) s db' token h₁ in
    let same = resolve_permissions-reads p.sorting _ _ db s permissions first in
    let same' = resolve_roles-reads p.sorting _ _ s s' roles second in
    (permissions, roles, ground arith, ground arith, ground arith, ground arith)
