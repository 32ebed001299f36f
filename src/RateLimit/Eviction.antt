-- ===== src/RateLimit/Eviction.antt =====
-- Dropping stale buckets bounds the memory, and never changes a decision.
use sassy_auth.Common.{
  ℕ, ◌*◌, String, true, ◌≡◌, refl, arith, Option-cases, none, some, ⊤, inl, inr, [], if◌then◌else◌,
  ◌∷◌, eq_iff,
}
use sassy_auth.RateLimit.{window_over, evict_expired, decide, limit_sensitive}
use sassy_auth.RateLimit.Store.{Bucket, Buckets, lookup}

-- A key has one bucket at most, as in a Map.
abbrev pub OneEach : Buckets → Type 0
OneEach [] = ⊤
OneEach ((k, b) ∷ m) = (lookup k m ≡ none) × OneEach m

lookup-evict_none :
    (window_ms now : ℕ) (k : String) (m : Buckets)
    → lookup k m ≡ none
    → lookup k (evict_expired window_ms now m) ≡ none
unfolding lookup evict_expired
lookup-evict_none window_ms now k [] h = refl
lookup-evict_none window_ms now k ((j, b) ∷ m) h =
    ground (arith, lookup-evict_none window_ms now k m, eq_iff j k)

-- The bucket of a client after the eviction: the same, unless it is two windows old.
pub lookup-evict_expired :
    (window_ms now : ℕ) (k : String) (m : Buckets)
    → OneEach m
    → lookup k (evict_expired window_ms now m) ≡ elim (lookup k m) [
      | none ↦ none
      | some b ↦ if window_over (window_ms * 2) now b then none else some b
    ]
unfolding lookup evict_expired
lookup-evict_expired window_ms now k [] h = refl
lookup-evict_expired window_ms now k ((j, b) ∷ m) h = ground (
  arith,
  lookup-evict_expired window_ms now k m h.1,
  lookup-evict_none window_ms now k m,
  eq_iff j k,
)

decide-stale :
    (window_ms max now : ℕ) (b : Bucket)
    → window_over (window_ms * 2) now b ≡ true
    → decide window_ms max now (some b) ≡ decide window_ms max now none
unfolding decide
decide-stale window_ms max now b h = ground arith

-- Where no client has two buckets, a request gets the answer that the client's own bucket decides:
-- the eviction of old buckets changes no answer.
pub limit_sensitive-decides :
    (window_ms max : ℕ) (key : String) (now : ℕ) (m : Buckets)
    → OneEach m
    → let (verdict, b) = decide window_ms max now (lookup key m) in
      ((limit_sensitive window_ms max key now m).0 ≡ verdict)
unfolding limit_sensitive
limit_sensitive-decides window_ms max key now m h = elim (Option-cases (lookup key m)) [
  | inl missing ↦ ground (arith, lookup-evict_expired window_ms now key m h)
  | inr (b, found) ↦
      ground (arith, lookup-evict_expired window_ms now key m h, decide-stale window_ms max now b)
]
