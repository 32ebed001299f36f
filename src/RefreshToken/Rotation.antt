-- ===== src/RefreshToken/Rotation.antt =====
-- What a rotation needs, and what it leaves.
use sassy_auth.Common.{
  ℕ, ◌≤◌, String, none, some, ◌≡◌, inl, inr, arith, eq_iff, find?, Option-cases, ok, is_some, ◌⊎◌,
  err, true, ◌===◌, Bool-cases, ltb, ◌||◌, Exception, prisma_error, Result-cases, p2002, refl,
}
use sassy_auth.RefreshToken.{
  SaRefreshToken, Table, has_hash, rotate_check, invalid_grant, revoke_where, JsonText, rotate_tx,
  create, rotate, rotate_commit, rotated,
}

-- The row of the presented token, and that it may be rotated for the app at the instant.
pub record IsRedeemable (hash_token : String → String) (presented app : String) (now : ℕ)
    (t : Table) (row : SaRefreshToken) : Type 0 where
  pub found : find? (has_hash (hash_token presented)) t ≡ some row
  pub of_app : row.app_public_id ≡ app
  pub unrevoked : row.revoked_at ≡ none
  pub in_window : now ≤ row.expires_at
  pub in_lifetime : now ≤ row.absolute_expires_at

module _ (hash_token : String → String) (presented app : String) (now : ℕ) where
  pub rotate_check_sound :
      (t t' : Table) (row : SaRefreshToken)
      → rotate_check hash_token presented app now t ≡ (ok row, t')
      → IsRedeemable hash_token presented app now t row × (t' ≡ t)
  unfolding rotate_check
  rotate_check_sound t t' row e = elim (Option-cases (find? (has_hash (hash_token presented)) t)) [
    | inl missing ↦ ground arith
    | inr (r, found) ↦ ground (arith, eq_iff r.app_public_id app)
  ]

  pub rotate_check_complete :
      (t : Table) (row : SaRefreshToken)
      → IsRedeemable hash_token presented app now t row
      → rotate_check hash_token presented app now t ≡ (ok row, t)
  unfolding rotate_check
  rotate_check_complete t row h =
      ground (arith, h.found, h.of_app, h.unrevoked, eq_iff row.app_public_id app)

  -- The presented token was rotated or revoked before, and is presented for its app.
  abbrev pub IsReused : Table → SaRefreshToken → Type 0
  IsReused t row =
      (find? (has_hash (hash_token presented)) t ≡ some row)
      × (row.app_public_id ≡ app)
      × (is_some row.revoked_at ≡ true)

  -- The three ways in which the first half of `rotate` ends.
  pub rotate_check_cases :
      (t : Table)
      → ((row : SaRefreshToken) × IsRedeemable hash_token presented app now t row
          × (rotate_check hash_token presented app now t ≡ (ok row, t)))
        ⊎ (rotate_check hash_token presented app now t ≡ (err invalid_grant, t))
        ⊎ ((row : SaRefreshToken) × IsReused t row
            × (rotate_check hash_token presented app now t
                ≡ (err invalid_grant, revoke_where (λ r. r.family_id === row.family_id) now t)))
  unfolding rotate_check
  rotate_check_cases t = elim (Option-cases (find? (has_hash (hash_token presented)) t)) [
    | inl missing ↦ inr (inl (ground arith))
    | inr (r, found) ↦ elim (Bool-cases (r.app_public_id === app)) [
      | inl right ↦ elim (Option-cases r.revoked_at) [
        | inl live ↦ elim (Bool-cases (ltb r.expires_at now || ltb r.absolute_expires_at now)) [
          | inl late ↦ inr (inl (ground arith))
          | inr timely ↦ inl (r, ground (arith, eq_iff r.app_public_id app), ground arith)
        ]
        | inr (at, revoked) ↦
            inr (inr (r, ground (arith, eq_iff r.app_public_id app), ground arith))
      ]
      | inr wrong ↦ inr (inl (ground arith))
    ]
  ]

  -- A database error that the transaction can raise: the new token's hash is taken.
  abbrev pub hash_taken : Exception
  hash_taken = prisma_error p2002

  rotate_tx-error :
      (new_token : String) (t : Table) (row : SaRefreshToken) (e : Exception)
      → rotate_tx hash_token row presented new_token now t ≡ err e
      → (e ≡ invalid_grant) ⊎ (e ≡ hash_taken)
  unfolding rotate_tx create
  rotate_tx-error new_token t row e h = ground arith

  module _ (json : JsonText) (new_token : String) where
    pub rotate-of_check :
        (t : Table) (row : SaRefreshToken)
        → rotate_check hash_token presented app now t ≡ (ok row, t)
        → rotate json hash_token presented app new_token now t
          ≡ rotate_commit json hash_token row presented new_token now t
    unfolding rotate
    rotate-of_check t row e = ground arith

    rotate-of_refusal :
        (t t' : Table) (e : Exception)
        → rotate_check hash_token presented app now t ≡ (err e, t')
        → rotate json hash_token presented app new_token now t ≡ (err e, t')
    unfolding rotate
    rotate-of_refusal t t' e h = ground arith

    -- The new state after a success.
    abbrev pub Rotates : Table → SaRefreshToken → Table → Type 0
    Rotates t row t' =
        IsRedeemable hash_token presented app now t row
        × (rotate_tx hash_token row presented new_token now t ≡ ok (tt, t'))
        × (rotate json hash_token presented app new_token now t
            ≡ (ok (rotated json row new_token), t'))

    -- The ways in which `rotate` ends: it rotates; it throws and changes nothing; or the token is
    -- reused and its family is revoked.
    pub rotate_cases :
        (t : Table)
        → ((row : SaRefreshToken) × (t' : Table) × Rotates t row t')
          ⊎ ((e : Exception) × ((e ≡ invalid_grant) ⊎ (e ≡ hash_taken))
              × (rotate json hash_token presented app new_token now t ≡ (err e, t)))
          ⊎ ((row : SaRefreshToken) × IsReused t row
              × (rotate json hash_token presented app new_token now t
                  ≡ (err invalid_grant, revoke_where (λ r. r.family_id === row.family_id) now t)))
    unfolding rotate_commit
    rotate_cases t = elim (rotate_check_cases t) [
      | inl (row, ready, e) ↦
          elim (Result-cases (rotate_tx hash_token row presented new_token now t)) [
            | inl ((u, t'), done) ↦
                inl (row, t', (ready, ground arith, rw (rotate-of_check t row e) (ground arith)))
            | inr (x, failed) ↦ inr (
                inl (
                  x,
                  rotate_tx-error new_token t row x failed,
                  rw (rotate-of_check t row e) (ground arith),
                ))
          ]
      | inr (inl e) ↦ inr (inl (invalid_grant, inl refl, rotate-of_refusal t t invalid_grant e))
      | inr (inr (row, reused, e)) ↦ inr (inr (row, reused, rotate-of_refusal t _ invalid_grant e))
    ]

    -- A reused token fails, and every live token of its family is revoked.
    pub rotate_reused_lem :
        (t : Table) (row : SaRefreshToken)
        → IsReused t row
        → rotate json hash_token presented app new_token now t
          ≡ (err invalid_grant, revoke_where (λ r. r.family_id === row.family_id) now t)
    unfolding rotate rotate_check
    rotate_reused_lem t row h = ground (arith, eq_iff row.app_public_id app)
