-- ===== src/RateLimit.antt =====
-- Two fixed-window rate limiters: the middleware before BetterAuth
-- (apps/auth-server/src/auth/auth-rate-limit.ts) and the guard of the registration endpoints
-- (apps/auth-server/src/registration/rate-limit.guard.ts). The buckets are a map from the client's
-- address; the clock is an argument. Node's clock may step back, and then the source's differences
-- are negative: they are written out as `bucket.windowStart + windowMs <= now`.
pub mod Store
pub mod Bound
pub mod Eviction
use sassy_auth.Common.{
  ℕ, ◌+◌, ◌*◌, ◌-◌, ◌/◌, String, Bool, true, false, ◌||◌, ◌&&◌, Option, none, some, List, [], ◌∷◌,
  ◌==◌, ◌===◌, ltb, leb, get_or, if◌then◌else◌, find?, any, delete_where, begins_with, codes, drop,
  same_codes, ◌++◌,
}
use sassy_auth.RateLimit.Store.{Bucket, Buckets, lookup, insert}

-- `resolveClientIp`
unfoldable pub resolve_client_ip : List String → Option String → String
resolve_client_ip [] ip = get_or ip "unknown"
resolve_client_ip (first ∷ _) ip = first

-- A request lets its caller through, or is answered 429; the middleware adds `Retry-After`.
pub data Verdict : Type 0 where
  passes : Verdict
  too_many : ℕ → Verdict

-- `currentTime - bucket.windowStart >= windowMs`
abbrev pub window_over : ℕ → ℕ → Bucket → Bool
window_over window_ms now b = leb (b.window_start + window_ms) now

-- `evictExpired`
unfoldable pub evict_expired : ℕ → ℕ → Buckets → Buckets
evict_expired window_ms now buckets =
    delete_where (λ e. window_over (window_ms * 2) now e.1) buckets

-- `Math.max(1, Math.ceil((bucket.windowStart + windowMs - currentTime) / 1000))`
abbrev pub retry_after : ℕ → ℕ → Bucket → ℕ
retry_after window_ms now b =
    let seconds = (b.window_start + window_ms - now + 999) / 1000 in
    if ltb seconds 1 then 1 else seconds

-- The decision on the client's bucket: the bucket that it becomes, if it changes.
unfoldable pub decide : ℕ → ℕ → ℕ → Option Bucket → Verdict × Option Bucket
decide window_ms max now none = (passes, some (record { count = 1; window_start = now }))
decide window_ms max now (some b) =
    if window_over window_ms now b
    then (passes, some (record { count = 1; window_start = now }))
    else if ltb b.count max
    then (passes, some (record b { count = b.count + 1 }))
    else (too_many (retry_after window_ms now b), none)

unfoldable pub store : String → Option Bucket → Buckets → Buckets
store key none buckets = buckets
store key (some b) buckets = insert key b buckets

-- The middleware on a sensitive path.
unfoldable pub limit_sensitive : ℕ → ℕ → String → ℕ → Buckets → Verdict × Buckets
limit_sensitive window_ms max key now buckets =
    let kept = evict_expired window_ms now buckets in
    let (verdict, b) = decide window_ms max now (lookup key kept) in (verdict, store key b kept)

abbrev pub sensitive_prefixes : List String
sensitive_prefixes =
    "/sign-in" ∷ "/sign-up" ∷ "/forget-password" ∷ "/reset-password" ∷ "/change-password"
    ∷ "/change-email" ∷ "/magic-link" ∷ "/email-otp" ∷ "/two-factor" ∷ "/send-verification-email"
    ∷ []

-- `path.split('?')[0]`
unfoldable pub without_query : List ℕ → List ℕ
without_query [] = []
without_query (c ∷ cs) = let rest = without_query cs in if c == b'?' then [] else c ∷ rest

-- The path relative to the BetterAuth mount.
unfoldable pub relative_path : List ℕ → List ℕ
relative_path path = if begins_with path (codes "/api/auth") then drop 9 path else path

-- `isSensitiveAuthPath`, over the path's code points
unfoldable pub is_sensitive_auth_path : List ℕ → Bool
is_sensitive_auth_path path =
    let relative = relative_path (without_query path) in
    begins_with relative (codes "/")
    && any
        (λ prefix.
          same_codes relative (codes prefix) || begins_with relative (codes prefix ++ codes "/"))
        sensitive_prefixes

-- The middleware: a path that carries no credential passes untouched.
unfoldable pub auth_limiter : ℕ → ℕ → List ℕ → String → ℕ → Buckets → Verdict × Buckets
auth_limiter window_ms max path key now buckets =
    if is_sensitive_auth_path path
    then limit_sensitive window_ms max key now buckets
    else (passes, buckets)

-- `RateLimitGuard.canActivate`: a limit of 0 is no limit, and nothing is evicted.
unfoldable pub can_activate : ℕ → ℕ → String → ℕ → Buckets → Verdict × Buckets
can_activate limit window_ms ip now buckets =
    if limit == 0
    then (passes, buckets)
    else let (verdict, b) = decide window_ms limit now (lookup ip buckets) in
      (verdict, store ip b buckets)
