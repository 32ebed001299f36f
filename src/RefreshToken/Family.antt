-- ===== src/RefreshToken/Family.antt =====
-- The invariant of the table: a hash has one row at most, and a rotation family one live token.
use sassy_auth.Common.{
  ℕ, ◌≤◌, String, Bool, false, ◌∷◌, ◌≡◌, arith, eq_iff, any, count_where, find?, inl, some, inr,
  none, ok, ◌===◌, subst, Bool-cases, true, [], refl,
}
use sassy_auth.RefreshToken.{
  SaRefreshToken, Table, has_hash, revoke_where, issue, rotate, rotate_tx, create, JsonText,
  IssueRefreshTokenParams, consume, successor, issued,
}
use sassy_auth.RefreshToken.Rotation.{rotate_cases}
use sassy_auth.RefreshToken.Rows.{
  live_in, count-of_any_none, count-revoke_where-le, count_hash-revoke_where, count_hash-consume,
  count-consume-le, count-consume,
}

pub record IsValid (t : Table) : Type 0 where
  pub one_row : (h : String) → count_where (has_hash h) t ≤ 1
  pub one_live : (f : String) → count_where (live_in f) t ≤ 1

pub revoke_where-IsValid :
    (p : SaRefreshToken → Bool) (now : ℕ) (t : Table) → IsValid t → IsValid (revoke_where p now t)
revoke_where-IsValid p now t v = record {
  one_row = λ h. omega (arith, v.one_row h, count_hash-revoke_where h p now t);
  one_live = λ f. omega (arith, v.one_live f, count-revoke_where-le f p now t);
}

-- A new row keeps the invariant if its hash has none and its family nothing live.
cons-IsValid :
    (row : SaRefreshToken) (t : Table)
    → IsValid t
    → any (has_hash row.token_hash) t ≡ false
    → count_where (live_in row.family_id) t ≡ 0
    → IsValid (row ∷ t)
cons-IsValid row t v fresh dead = record {
  one_row = λ h.
      ground (
        arith,
        v.one_row h,
        count-of_any_none (has_hash row.token_hash) t,
        eq_iff row.token_hash h,
      );
  one_live = λ f. ground (arith, v.one_live f, eq_iff row.family_id f);
}

none_live :
    (f : String) (t : Table) → any (λ r. r.family_id === f) t ≡ false → any (live_in f) t ≡ false
none_live f [] h = refl
none_live f (r ∷ t) h = ground (arith, none_live f t)

module _ (hash_token : String → String) where
  rotate_tx-IsValid :
      (presented new_token : String) (now : ℕ) (t t' : Table) (row : SaRefreshToken)
      → IsValid t
      → find? (has_hash (hash_token presented)) t ≡ some row
      → row.revoked_at ≡ none
      → rotate_tx hash_token row presented new_token now t ≡ ok (tt, t')
      → IsValid t'
  unfolding rotate_tx create
  rotate_tx-IsValid presented new_token now t t' row v found live e =
      let u = consume hash_token presented new_token now t in
      let next = successor hash_token row new_token now in
      let family : next.family_id ≡ row.family_id = unfold successor in (λ i. row.family_id) in
      let fresh : any (has_hash next.token_hash) u ≡ false = ground arith in
      let kept : IsValid u = record {
        one_row = λ h.
            omega (arith, v.one_row h, count_hash-consume hash_token presented new_token now h t);
        one_live = λ f.
            omega (arith, v.one_live f, count-consume-le hash_token presented new_token now f t);
      } in
      let dead : count_where (live_in row.family_id) u ≡ 0 = omega (
        arith,
        v.one_live row.family_id,
        count-consume hash_token presented new_token now t row found live,
      ) in
      let result : (next ∷ u) ≡ t' = ground arith in
      subst IsValid result (cons-IsValid next u kept fresh (rw family dead))

  -- A rotation keeps the invariant however it ends: no family ever has two live tokens.
  pub rotate-IsValid :
      (json : JsonText) (presented app new_token : String) (now : ℕ) (t : Table)
      → IsValid t
      → IsValid (rotate json hash_token presented app new_token now t).1
  rotate-IsValid json presented app new_token now t v =
      elim (rotate_cases hash_token presented app now json new_token t) [
        | inl (row, t', (ready, tx, e)) ↦
            rw e
              (rotate_tx-IsValid presented new_token now t t' row v ready.found ready.unrevoked tx)
        | inr (inl (x, kind, e)) ↦ rw e v
        | inr (inr (row, reused, e)) ↦ rw e (revoke_where-IsValid _ now t v)
      ]

  issue_taken :
      (json : JsonText) (params : IssueRefreshTokenParams) (token family : String) (now : ℕ)
      (t : Table)
      → any (has_hash (issued json hash_token params token family now).token_hash) t ≡ true
      → (issue json hash_token params token family now t).1 ≡ t
  unfolding issue create
  issue_taken json params token family now t h = ground arith

  pub issue_fresh :
      (json : JsonText) (params : IssueRefreshTokenParams) (token family : String) (now : ℕ)
      (t : Table)
      → any (has_hash (issued json hash_token params token family now).token_hash) t ≡ false
      → (issue json hash_token params token family now t).1
        ≡ issued json hash_token params token family now ∷ t
  unfolding issue create
  issue_fresh json params token family now t h = ground arith

  -- Issuing a token of a new family keeps the invariant.
  pub issue-IsValid :
      (json : JsonText) (params : IssueRefreshTokenParams) (token family : String) (now : ℕ)
      (t : Table)
      → IsValid t
      → any (λ r. r.family_id === family) t ≡ false
      → IsValid (issue json hash_token params token family now t).1
  issue-IsValid json params token family now t v new_family =
      let row = issued json hash_token params token family now in
      let of_family : row.family_id ≡ family = unfold issued in (λ i. family) in
      elim (Bool-cases (any (has_hash row.token_hash) t)) [
        | inl taken ↦ rw (issue_taken json params token family now t taken) v
        | inr fresh ↦ rw (issue_fresh json params token family now t fresh) (
            cons-IsValid row t v fresh
              (rw of_family (count-of_any_none (live_in family) t (none_live family t new_family))))
      ]
