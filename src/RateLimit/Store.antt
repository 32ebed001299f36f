-- ===== src/RateLimit/Store.antt =====
-- The map from clients to buckets, in insertion order.
use sassy_auth.Common.{
  ℕ, String, Option, none, some, List, [], ◌∷◌, ◌===◌, ◌≡◌, refl, arith, eq_iff, if◌then◌else◌,
}

pub record Bucket : Type 0 where
  pub count : ℕ
  pub window_start : ℕ

abbrev pub Buckets : Type 0
Buckets = List (String × Bucket)

-- `buckets.get(key)`
unfoldable pub lookup : String → Buckets → Option Bucket
lookup k [] = none
lookup k ((j, b) ∷ m) = if j === k then some b else lookup k m

-- `buckets.set(key, bucket)`
unfoldable pub insert : String → Bucket → Buckets → Buckets
insert k b [] = (k, b) ∷ []
insert k b ((j, c) ∷ m) = if j === k then (j, b) ∷ m else (j, c) ∷ insert k b m

pub lookup-insert :
    (k j : String) (b : Bucket) (m : Buckets)
    → lookup j (insert k b m) ≡ (if k === j then some b else lookup j m)
unfolding lookup insert
lookup-insert k j b [] = refl
lookup-insert k j b ((i, c) ∷ m) =
    ground (arith, eq_iff k j, eq_iff i k, eq_iff i j, lookup-insert k j b m)
