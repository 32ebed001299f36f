-- ===== src/RateLimit/Bound.antt =====
-- How many requests of one client a window lets through.
use sassy_auth.Common.{
  ℕ, ◌+◌, ◌≤◌, ◌<◌, String, false, ◌≡◌, arith, List, Option, some, ⊤, ◌-◌, [], none, ◌===◌, ◌∷◌,
  Option-cases, if◌then◌else◌, inl, inr, Bool-cases, eq_iff, subst, sym, ◌*◌, ◌⊎◌,
}
use sassy_auth.RateLimit.{passes, too_many, decide, store, can_activate}
use sassy_auth.RateLimit.Store.{Bucket, Buckets, lookup, lookup-insert}

-- The requests of a sequence, each a client and an instant, that the guard lets through for one
-- client, and the buckets at the end.
unfoldable pub run : ℕ → ℕ → String → List (String × ℕ) → Buckets → ℕ × Buckets
run limit window_ms me [] m = (0, m)
run limit window_ms me ((ip, now) ∷ rest) m =
    let (verdict, m') = can_activate limit window_ms ip now m in
    let (n, m'') = run limit window_ms me rest m' in
    (elim verdict [ passes ↦ (if ip === me then n + 1 else n) | too_many _ ↦ n ], m'')

-- All requests come in one window that begins at `start`.
abbrev pub Within : ℕ → ℕ → List (String × ℕ) → Type 0
Within start window_ms [] = ⊤
Within start window_ms ((ip, now) ∷ rest) =
    (start ≤ now) × (now < start + window_ms) × Within start window_ms rest

-- The budget that a client has left in the window that began no earlier than `start`.
abbrev left : ℕ → Option Bucket → ℕ
left limit none = limit
left limit (some b) = limit - b.count

left-le : (limit : ℕ) (b : Option Bucket) → left limit b ≤ limit
left-le limit none = omega arith
left-le limit (some b) = omega arith

-- What a decision leaves of the client's bucket.
abbrev after : Option Bucket → Option Bucket → Option Bucket
after old none = old
after old (some b) = some b

module _ (limit window_ms : ℕ) (me : String) where
  other_bucket :
      (ip : String) (now : ℕ) (m : Buckets)
      → (ip === me) ≡ false
      → lookup me (can_activate limit window_ms ip now m).1 ≡ lookup me m
  unfolding can_activate store decide
  other_bucket ip now m other = elim (Option-cases (lookup ip m)) [
    | inl missing ↦ ground (arith, lookup-insert ip me (record { count = 1; window_start = now }) m)
    | inr (b, found) ↦ ground (
      arith,
      lookup-insert ip me (record { count = 1; window_start = now }) m,
      lookup-insert ip me (record b { count = b.count + 1 }) m,
    )
  ]

  -- The request of the client itself: the answer, and the bucket that it leaves.
  own_bucket :
      (now : ℕ) (m : Buckets)
      → 1 ≤ limit
      → let d = decide window_ms limit now (lookup me m) in
        ((can_activate limit window_ms me now m).0 ≡ d.0)
        × (lookup me (can_activate limit window_ms me now m).1 ≡ after (lookup me m) d.1)
  unfolding can_activate store decide
  own_bucket now m some_limit = elim (Option-cases (lookup me m)) [
    | inl missing ↦
        ground
          (arith, eq_iff me me, lookup-insert me me (record { count = 1; window_start = now }) m)
    | inr (b, found) ↦ ground (
      arith,
      eq_iff me me,
      lookup-insert me me (record { count = 1; window_start = now }) m,
      lookup-insert me me (record b { count = b.count + 1 }) m,
    )
  ]

  -- The client's bucket began no earlier than `start`, if there is one.
  abbrev Recent : ℕ → Option Bucket → Type 0
  Recent start none = ⊤
  Recent start (some b) = start ≤ b.window_start

  -- A request inside the window uses up budget that is left, or is refused.
  decide-Recent :
      (start now : ℕ) (b : Option Bucket)
      → 1 ≤ limit
      → start ≤ now
      → now < start + window_ms
      → Recent start b
      → let d = decide window_ms limit now b in
        Recent start (after b d.1)
        × (left limit (after b d.1) + (elim d.0 [ passes ↦ 1 | too_many _ ↦ 0 ]) ≤ left limit b)
  unfolding decide
  decide-Recent start now none h1 h2 h3 r = ground arith
  decide-Recent start now (some b) h1 h2 h3 r = ground arith

  run-Recent :
      (start : ℕ) (requests : List (String × ℕ)) (m : Buckets)
      → 1 ≤ limit
      → Within start window_ms requests
      → Recent start (lookup me m)
      → (run limit window_ms me requests m).0 ≤ left limit (lookup me m)
  unfolding run
  run-Recent start [] m h w r = omega arith
  run-Recent start ((ip, now) ∷ rest) m h (from, to, w) r = elim (Bool-cases (ip === me)) [
    | inl same ↦
        let own = own_bucket now m h in
        let step = decide-Recent start now (lookup me m) h from to r in
        let ih =
          run-Recent start rest (can_activate limit window_ms me now m).1 h w
            (subst (Recent start) (sym own.1) step.0) in
        rw ((eq_iff ip me).0 same) (ground (arith, own, step, ih, eq_iff me me))
    | inr other ↦
        let kept = other_bucket ip now m other in
        let ih =
          run-Recent start rest (can_activate limit window_ms ip now m).1 h w
            (subst (Recent start) (sym kept) r) in
        ground (arith, kept, ih, other)
  ]

  -- A request on whatever bucket: it opens a window, or uses up budget that is left.
  decide-any :
      (start now : ℕ) (b : Option Bucket)
      → 1 ≤ limit
      → start ≤ now
      → let d = decide window_ms limit now b in
        (Recent start (after b d.1)
          × (left limit (after b d.1) + (elim d.0 [ passes ↦ 1 | too_many _ ↦ 0 ]) ≤ limit))
        ⊎ (left limit (after b d.1) + (elim d.0 [ passes ↦ 1 | too_many _ ↦ 0 ]) ≤ left limit b)
  unfolding decide
  decide-any start now none h1 h2 = ground arith
  decide-any start now (some b) h1 h2 = ground arith

  run-any :
      (start : ℕ) (requests : List (String × ℕ)) (m : Buckets)
      → 1 ≤ limit
      → Within start window_ms requests
      → (run limit window_ms me requests m).0 ≤ left limit (lookup me m) + limit
  unfolding run
  run-any start [] m h w = omega arith
  run-any start ((ip, now) ∷ rest) m h (from, to, w) = elim (Bool-cases (ip === me)) [
    | inl same ↦
        let own = own_bucket now m h in
        elim (decide-any start now (lookup me m) h from) [
          | inl step ↦
              let rest_bound =
                run-Recent start rest (can_activate limit window_ms me now m).1 h w
                  (subst (Recent start) (sym own.1) step.0) in
              rw ((eq_iff ip me).0 same) (ground (arith, own, step, rest_bound, eq_iff me me))
          | inr step ↦
              let ih = run-any start rest (can_activate limit window_ms me now m).1 h w in
              rw ((eq_iff ip me).0 same) (ground (arith, own, step, ih, eq_iff me me))
        ]
    | inr other ↦
        let kept = other_bucket ip now m other in
        let ih = run-any start rest (can_activate limit window_ms ip now m).1 h w in
        ground (arith, kept, ih, other)
  ]

-- What a stretch that is as long as the window may let through: the limit, and where the client has
-- a bucket already, what that bucket has left besides.
abbrev pub budget : ℕ → Option Bucket → ℕ
budget limit none = limit
budget limit (some b) = (limit - b.count) + limit

budget-le : (limit : ℕ) (b : Option Bucket) → budget limit b ≤ 2 * limit
budget-le limit none = omega arith
budget-le limit (some b) = omega arith

-- Where the limit is at least one (a limit of 0 is no limit), a stretch of time as long as the
-- window lets at most `limit` requests of a client through that has no bucket at its start. A client
-- that has one gets at most what the bucket has left and `limit` more, since a fixed window can end
-- and begin anew inside the stretch: never more than twice the limit. Requests of other clients may
-- come between.
pub run-le-budget :
    (limit window_ms start : ℕ) (me : String) (requests : List (String × ℕ)) (m : Buckets)
    → 1 ≤ limit
    → Within start window_ms requests
    → ((run limit window_ms me requests m).0 ≤ budget limit (lookup me m))
      × ((run limit window_ms me requests m).0 ≤ 2 * limit)
run-le-budget limit window_ms start me requests m h w =
    let small = budget-le limit (lookup me m) in
    elim (Option-cases (lookup me m)) [
      | inl new ↦
          let bound = run-Recent limit window_ms me start requests m h w (rw new tt) in ground arith
      | inr (b, found) ↦ let bound = run-any limit window_ms me start requests m h w in ground arith
    ]
