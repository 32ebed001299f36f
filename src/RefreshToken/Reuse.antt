-- ===== src/RefreshToken/Reuse.antt =====
-- Rotation makes a token single-use, and a second use burns its family.
use sassy_auth.Common.{
  ℕ, String, true, some, none, [], ◌∷◌, ◌≡◌, refl, arith, find?, ◌+◌, any, ok, eq_iff, count_where,
  err, inl, Result-cases, subst, ◌&&◌, ◌===◌, inr,
}
use sassy_auth.Json.{JsonText}
use sassy_auth.RefreshToken.{
  SaRefreshToken, Table, has_hash, is_live, invalid_grant, create, revoke_where, successor, consume,
  rotate_tx, rotated, rotate, RotatedRefreshToken, sliding_ttl_ms, rotate_commit,
}
use sassy_auth.RefreshToken.Rows.{live_in, count-revoke_where_self, any_hash-consume}
use sassy_auth.RefreshToken.Rotation.{IsRedeemable, rotate_cases, rotate_reused_lem}

-- The row that takes the place of `row`: same family, same claims and same absolute end, a new
-- sliding window, live.
pub record IsSuccessor (row : SaRefreshToken) (now : ℕ) (s : SaRefreshToken) : Type 0 where
  pub family_id : s.family_id ≡ row.family_id
  pub sa_user_id : s.sa_user_id ≡ row.sa_user_id
  pub user_public_id : s.user_public_id ≡ row.user_public_id
  pub org_public_id : s.org_public_id ≡ row.org_public_id
  pub app_id : s.app_id ≡ row.app_id
  pub app_public_id : s.app_public_id ≡ row.app_public_id
  pub scope : s.scope ≡ row.scope
  pub amr : s.amr ≡ row.amr
  pub idp : s.idp ≡ row.idp
  pub auth_time : s.auth_time ≡ row.auth_time
  pub expires_at : s.expires_at ≡ now + sliding_ttl_ms
  pub absolute_expires_at : s.absolute_expires_at ≡ row.absolute_expires_at
  pub revoked_at : s.revoked_at ≡ none

module _ (hash_token : String → String) (presented app new_token : String) (now : ℕ) where
  abbrev spent : SaRefreshToken → SaRefreshToken
  spent row = record row {
    revoked_at = some now;
    replaced_by_token_hash = some (hash_token new_token);
  }

  find-consume :
      (t : Table) (row : SaRefreshToken)
      → find? (has_hash (hash_token presented)) t ≡ some row
      → row.revoked_at ≡ none
      → find? (has_hash (hash_token presented)) (consume hash_token presented new_token now t)
        ≡ some (spent row)
  unfolding consume
  find-consume [] row h e = cc
  find-consume (r ∷ t) row h e = ground (arith, find-consume t row)

  any-of_find :
      (h : String) (t : Table) (row : SaRefreshToken)
      → find? (has_hash h) t ≡ some row
      → any (has_hash h) t ≡ true
  any-of_find h [] row e = cc
  any-of_find h (r ∷ t) row e = ground (arith, any-of_find h t row)

  rotate_tx-rows :
      (t t' : Table) (row : SaRefreshToken)
      → find? (has_hash (hash_token presented)) t ≡ some row
      → row.revoked_at ≡ none
      → rotate_tx hash_token row presented new_token now t ≡ ok (tt, t')
      → (find? (has_hash (hash_token presented)) t' ≡ some (spent row))
        × (find? (has_hash (hash_token new_token)) t'
            ≡ some (successor hash_token row new_token now))
  unfolding rotate_tx create successor
  rotate_tx-rows t t' row found live e = ground (
    arith,
    find-consume t row found live,
    any-of_find (hash_token presented) t row found,
    any_hash-consume hash_token presented new_token now (hash_token presented) t,
    any_hash-consume hash_token presented new_token now (hash_token new_token) t,
    eq_iff (hash_token new_token) (hash_token presented),
    eq_iff (hash_token new_token) (hash_token new_token),
  )

  successor-IsSuccessor :
      (row : SaRefreshToken) → IsSuccessor row now (successor hash_token row new_token now)
  unfolding successor
  successor-IsSuccessor row = ground arith

  module _ (json : JsonText) where
    -- A rotation that succeeds was asked for with a live token of the app, inside both of its
    -- windows. It answers the claims of that token's row with the new token, marks the row as
    -- replaced, and stores a successor: same family, claims and absolute end, a new sliding
    -- window.
    pub rotate_sound :
        (t t' : Table) (r : RotatedRefreshToken)
        → rotate json hash_token presented app new_token now t ≡ (ok r, t')
        → (row s : SaRefreshToken) × IsRedeemable hash_token presented app now t row
          × (r ≡ rotated json row new_token)
          × (find? (has_hash (hash_token presented)) t' ≡ some (spent row))
          × (find? (has_hash (hash_token new_token)) t' ≡ some s)
          × IsSuccessor row now s
    rotate_sound t t' r e = elim (rotate_cases hash_token presented app now json new_token t) [
      | inl (row, u, (ready, tx, done)) ↦
          let same : u ≡ t' = ground arith in
          let rows = rotate_tx-rows t t' row ready.found ready.unrevoked (
            subst (λ x. rotate_tx hash_token row presented new_token now t ≡ ok (tt, x)) same tx) in
          (
            row,
            successor hash_token row new_token now,
            ready,
            ground arith,
            rows.0,
            rows.1,
            successor-IsSuccessor row,
          )
      | inr (inl (x, kind, failed)) ↦ cc
      | inr (inr (row, reused, failed)) ↦ cc
    ]

-- Presenting a token a second time, after it was rotated for the same app, fails with
-- `invalid_grant` whenever that happens, and leaves no live token in its family: the token that
-- the first rotation handed out is dead too.
pub replay_burns_family :
    (json : JsonText) (hash_token : String → String) (presented app new_token again : String)
    (now later : ℕ) (t t' : Table) (r : RotatedRefreshToken)
    → rotate json hash_token presented app new_token now t ≡ (ok r, t')
    → (row : SaRefreshToken) × (t'' : Table) × (find? (has_hash (hash_token presented)) t
        ≡ some row)
      × (rotate json hash_token presented app again later t' ≡ (err invalid_grant, t''))
      × (count_where (live_in row.family_id) t'' ≡ 0)
replay_burns_family json hash_token presented app new_token again now later t t' r e =
    let (row, s, ready, _, old, _, _) =
      rotate_sound hash_token presented app new_token now json t t' r e in
    (
      row,
      revoke_where (λ x. x.family_id === row.family_id) later t',
      ready.found,
      rotate_reused_lem hash_token presented app later json again t'
          (spent hash_token presented app new_token now row) (old, ready.of_app, refl),
      count-revoke_where_self row.family_id later t',
    )

module _ (hash_token : String → String) (presented : String) where
  none_live_consumed :
      (new_token : String) (now : ℕ) (t : Table)
      → count_where
          (λ r. has_hash (hash_token presented) r && is_live r)
          (consume hash_token presented new_token now t)
        ≡ 0
  unfolding consume
  none_live_consumed new_token now [] = refl
  none_live_consumed new_token now (r ∷ t) = ground (arith, none_live_consumed new_token now t)

  any-of_count :
      (t : Table)
      → count_where (λ r. has_hash (hash_token presented) r && is_live r) t ≡ 1
      → any (has_hash (hash_token presented)) t ≡ true
  any-of_count [] e = cc
  any-of_count (r ∷ t) e = ground (arith, any-of_count t)

  rotate_tx_twice :
      (row row' : SaRefreshToken) (new_token new_token' : String) (now now' : ℕ) (t t' : Table)
      → rotate_tx hash_token row presented new_token now t ≡ ok (tt, t')
      → rotate_tx hash_token row' presented new_token' now' t' ≡ err invalid_grant
  unfolding rotate_tx create successor
  rotate_tx_twice row row' new_token new_token' now now' t t' e = ground (
    arith,
    none_live_consumed new_token now t,
    any-of_count t,
    any_hash-consume hash_token presented new_token now (hash_token presented) t,
    eq_iff (hash_token new_token) (hash_token presented),
  )

  -- Two requests that both read the token's row before either wrote race in their transactions:
  -- once one has succeeded, the other fails with `invalid_grant` and changes nothing.
  pub race_has_one_winner :
      (json : JsonText) (row row' : SaRefreshToken) (new_token new_token' : String) (now now' : ℕ)
      (t t' : Table) (r : RotatedRefreshToken)
      → rotate_commit json hash_token row presented new_token now t ≡ (ok r, t')
      → rotate_commit json hash_token row' presented new_token' now' t' ≡ (err invalid_grant, t')
  unfolding rotate_commit
  race_has_one_winner json row row' new_token new_token' now now' t t' r e =
      elim (Result-cases (rotate_tx hash_token row presented new_token now t)) [
        | inl ((u, x), done) ↦
            let same : x ≡ t' = ground arith in
            ground (
              arith,
              rotate_tx_twice row row' new_token new_token' now now' t t' (
                  subst (λ y. rotate_tx hash_token row presented new_token now t ≡ ok (tt, y)) same
                    done),
            )
        | inr (x, failed) ↦ ground arith
      ]
