-- ===== src/OauthCode/Sweep.antt =====
-- The periodic sweep removes only codes that can no longer be exchanged.
use sassy_auth.Common.{
  ℕ, String, some, none, false, ◌≡◌, refl, arith, Bool, Option, count_where, find?, ◌+◌,
  delete_where, length, ltb, ◌∷◌, ◌≤◌, [], ok, ◌↔◌,
}
use sassy_auth.Json.{JsonText}
use sassy_auth.OauthCode.{SaOauthCode, Table, Exchanged, has_code, exchange_code, sweep}
use sassy_auth.OauthCode.Exchange.{exchange_iff}

abbrev pub expired : ℕ → SaOauthCode → Bool
expired now row = ltb row.expires_at now

find-of_count :
    (code : String) (t : Table) → count_where (has_code code) t ≡ 0 → find? (has_code code) t ≡ none
find-of_count code [] h = refl
find-of_count code (r ∷ t) h = ground (arith, find-of_count code t)

none-swept :
    (code : String) (at : ℕ) (t : Table)
    → find? (has_code code) t ≡ none
    → find? (has_code code) (delete_where (expired at) t) ≡ none
none-swept code at [] h = refl
none-swept code at (r ∷ t) h = ground (arith, none-swept code at t)

find-swept :
    (code : String) (at : ℕ) (entry : SaOauthCode) (t : Table)
    → count_where (has_code code) t ≤ 1
    → (find? (has_code code) (delete_where (expired at) t) ≡ some entry)
      ↔ ((find? (has_code code) t ≡ some entry) × (expired at entry ≡ false))
find-swept code at entry [] le = ground arith
find-swept code at entry (r ∷ t) le =
    ground (arith, find-swept code at entry t, find-of_count code t, none-swept code at t)

-- A sweep never changes which later exchanges succeed, nor what they answer: it may run at any
-- time before the exchange, by any replica. (A code is the primary key of its table.)
pub exchange-sweep :
    (json : JsonText) (s256_of : String → String) (code app uri : String) (verifier : Option String)
    (at now : ℕ) (t : Table) (x : Exchanged)
    → at ≤ now
    → count_where (has_code code) t ≤ 1
    → ((exchange_code json s256_of code app uri verifier now (sweep at t).1).0 ≡ ok x)
      ↔ ((exchange_code json s256_of code app uri verifier now t).0 ≡ ok x)
unfolding sweep
exchange-sweep json s256_of code app uri verifier at now t x before key =
    let swept =
      exchange_iff json s256_of code app uri verifier now (delete_where (expired at) t) x in
    let whole = exchange_iff json s256_of code app uri verifier now t x in
    (
      λ h.
          let (entry, found, bound, answer) = swept.0 h in
          whole.1 (entry, ((find-swept code at entry t key).0 found).0, bound, answer),
      λ h.
          let (entry, found, bound, answer) = whole.0 h in
          let fresh : expired at entry ≡ false = let due = bound.in_time in ground arith in
          swept.1 (entry, (find-swept code at entry t key).1 (found, fresh), bound, answer),
    )

-- A sweep answers how many rows it removed, and leaves no expired row.
pub sweep_counts :
    (now : ℕ) (t : Table)
    → let (removed, t') = sweep now t in
      (removed + length t' ≡ length t) × (count_where (expired now) t' ≡ 0)
unfolding sweep
sweep_counts now [] = (refl, refl)
sweep_counts now (r ∷ t) = ground (arith, sweep_counts now t)
