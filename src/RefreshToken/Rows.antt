-- ===== src/RefreshToken/Rows.antt =====
-- How the queries on SaRefreshToken change the number of rows with a hash, and of live rows of a
-- family.
use sassy_auth.Common.{
  ℕ, ◌+◌, ◌≤◌, String, Bool, false, ◌&&◌, none, some, List, [], ◌∷◌, ◌===◌, ◌≡◌, refl, arith,
  eq_iff, find?, any, count_where,
}
use sassy_auth.RefreshToken.{SaRefreshToken, Table, is_live, has_hash, revoke_where, consume}

-- A live row of the family.
abbrev pub live_in : String → SaRefreshToken → Bool
live_in f r = r.family_id === f && is_live r

pub count-of_any_none {ℓ} :
    {A : Type ℓ} (p : A → Bool) (t : List A) → any p t ≡ false → count_where p t ≡ 0
count-of_any_none p [] h = refl
count-of_any_none p (r ∷ t) h = ground (arith, count-of_any_none p t)

count-and_le {ℓ} :
    {A : Type ℓ} (p q : A → Bool) (t : List A) → count_where (λ x. p x && q x) t ≤ count_where p t
count-and_le p q [] = omega arith
count-and_le p q (x ∷ t) = ground (arith, count-and_le p q t)

pub count-revoke_where-le :
    (f : String) (p : SaRefreshToken → Bool) (now : ℕ) (t : Table)
    → count_where (live_in f) (revoke_where p now t) ≤ count_where (live_in f) t
unfolding revoke_where
count-revoke_where-le f p now [] = omega arith
count-revoke_where-le f p now (r ∷ t) = ground (arith, count-revoke_where-le f p now t)

-- Revoking what `p` selects leaves nothing live that `p` selects.
pub count-revoke_where_self :
    (f : String) (now : ℕ) (t : Table)
    → count_where (live_in f) (revoke_where (λ r. r.family_id === f) now t) ≡ 0
unfolding revoke_where
count-revoke_where_self f now [] = refl
count-revoke_where_self f now (r ∷ t) = ground (arith, count-revoke_where_self f now t)

pub count_hash-revoke_where :
    (h : String) (p : SaRefreshToken → Bool) (now : ℕ) (t : Table)
    → count_where (has_hash h) (revoke_where p now t) ≡ count_where (has_hash h) t
unfolding revoke_where
count_hash-revoke_where h p now [] = refl
count_hash-revoke_where h p now (r ∷ t) = ground (arith, count_hash-revoke_where h p now t)

module _ (hash_token : String → String) (presented new_token : String) (now : ℕ) where
  abbrev consumed : Table → Table
  consumed t = consume hash_token presented new_token now t

  pub count_hash-consume :
      (h : String) (t : Table) → count_where (has_hash h) (consumed t) ≡ count_where (has_hash h) t
  unfolding consume
  count_hash-consume h [] = refl
  count_hash-consume h (r ∷ t) = ground (arith, count_hash-consume h t)

  pub any_hash-consume :
      (h : String) (t : Table) → any (has_hash h) (consumed t) ≡ any (has_hash h) t
  unfolding consume
  any_hash-consume h [] = refl
  any_hash-consume h (r ∷ t) = ground (arith, any_hash-consume h t)

  pub count-consume-le :
      (f : String) (t : Table) → count_where (live_in f) (consumed t) ≤ count_where (live_in f) t
  unfolding consume
  count-consume-le f [] = omega arith
  count-consume-le f (r ∷ t) = ground (arith, count-consume-le f t)

  -- Where the presented row is live, consuming it takes one live row from its family.
  pub count-consume :
      (t : Table) (row : SaRefreshToken)
      → find? (has_hash (hash_token presented)) t ≡ some row
      → row.revoked_at ≡ none
      → count_where (live_in row.family_id) (consumed t) + 1 ≤ count_where (live_in row.family_id) t
  unfolding consume
  count-consume [] row h e = cc
  count-consume (r ∷ t) row h e = ground (
    arith,
    count-consume t row,
    count-consume-le row.family_id t,
    eq_iff row.family_id row.family_id,
  )

  pub consumed_once :
      (t : Table) (row : SaRefreshToken)
      → find? (has_hash (hash_token presented)) t ≡ some row
      → row.revoked_at ≡ none
      → count_where (has_hash (hash_token presented)) t ≤ 1
      → count_where (λ r. has_hash (hash_token presented) r && is_live r) t ≡ 1
  consumed_once [] row h e le = cc
  consumed_once (r ∷ t) row h e le =
      ground (arith, consumed_once t row, count-and_le (has_hash (hash_token presented)) is_live t)
