-- ===== src/SignIn.antt =====
-- Decisions around a sign-in: session-gate.ts, should-prompt-two-factor.ts, resolve-trust-days.ts
-- and two-factor-required.ts of apps/auth-server/src/auth, and
-- social/resolve-enabled-providers.ts.
use mathlib.Core.List.{Memᴰ}
use sassy_auth.Common.{
  ℕ, ◌+◌, ◌*◌, ◌<◌, String, Bool, true, false, not, ◌&&◌, Option, none, some, List, [], ◌∷◌, ◌≡◌,
  ◌↔◌, ◌⊎◌, inl, inr, arith, ltb, if◌then◌else◌, filter, find?, any, is_number, get_or,
  Option-cases, mem-filter_iff, is_some, refl,
}
use sassy_auth.Db.{SaUser, UserStatus, active, pending, inactive, unverified, Db}
use sassy_auth.Access.{find_user_by_ba_id}

-- What `evaluateSessionGate` answers.
pub record Gate : Type 0 where
  pub allowed : Bool
  pub status : Option UserStatus

abbrev pub is_active : UserStatus → Bool
is_active active = true
is_active _ = false

-- `evaluateSessionGate`
unfoldable pub evaluate_session_gate : String → Db → Gate
evaluate_session_gate user_id db = elim (find_user_by_ba_id user_id db) [
  | none ↦ record { allowed = false; status = none }
  | some u ↦ record { allowed = is_active u.status; status = some u.status }
]

pub record ShouldPromptParams : Type 0 where
  pub two_factor_enabled : Bool
  pub prompted_at : Option ℕ
  pub now : ℕ
  pub interval_days : ℕ
  pub prompt_enabled : Bool

-- `shouldPromptTwoFactor`: `elapsedMs > intervalMs` is written out, since a clock may step back.
unfoldable pub should_prompt_two_factor : ShouldPromptParams → Bool
should_prompt_two_factor p =
    if not p.prompt_enabled
    then false
    else if p.two_factor_enabled
    then false
    else elim p.prompted_at [
      | none ↦ true
      | some at ↦ ltb (at + p.interval_days * 24 * 60 * 60 * 1000) p.now
    ]

-- `resolveTrustDays`, for a column that is an integer: `none` is null, and the values that are no
-- positive number count as 0.
unfoldable pub resolve_trust_days : Option ℕ → ℕ → ℕ
resolve_trust_days none system_default = system_default
resolve_trust_days (some override) system_default =
    if ltb 0 override then override else system_default

-- `resolvePromptEnabled`
unfoldable pub resolve_prompt_enabled : Option Bool → Bool → Bool
resolve_prompt_enabled override system_default = get_or override system_default

-- `isTwoFactorRequired`: `platform_required` is `isPlatformTwoFactorRequired()`.
unfoldable pub is_two_factor_required : Bool → Bool → Bool → Bool
is_two_factor_required platform_required require_two_factor is_platform =
    if require_two_factor then true else is_platform && platform_required

pub active_iff : (s : UserStatus) → (is_active s ≡ true) ↔ (s ≡ active)
active_iff active = ground arith
active_iff pending = ground arith
active_iff inactive = ground arith
active_iff unverified = ground arith

-- A user without a row or whose status is not active never gets a session; an active one does.
pub evaluate_session_gate_iff :
    (user_id : String) (db : Db)
    → ((evaluate_session_gate user_id db).allowed ≡ true)
      ↔ ((u : SaUser) × (find_user_by_ba_id user_id db ≡ some u) × (u.status ≡ active))
unfolding evaluate_session_gate
evaluate_session_gate_iff user_id db = elim (Option-cases (find_user_by_ba_id user_id db)) [
  | inl missing ↦ ground arith
  | inr (u, found) ↦ ground (arith, active_iff u.status)
]

-- The prompt is shown exactly when it is enabled, the user has no second factor, and the user was
-- never prompted or the last prompt is more than the interval ago.
pub should_prompt_two_factor_iff :
    (p : ShouldPromptParams)
    → (should_prompt_two_factor p ≡ true) ↔ (
        (p.prompt_enabled ≡ true)
        × (p.two_factor_enabled ≡ false)
        × ((p.prompted_at ≡ none)
            ⊎ ((at : ℕ) × (p.prompted_at ≡ some at) × (at + p.interval_days * 86400000 < p.now))))
unfolding should_prompt_two_factor
should_prompt_two_factor_iff p = elim (Option-cases p.prompted_at) [
  | inl never ↦ ground arith
  | inr (at, prompted) ↦ ground arith
]

pub data SocialProviderId : Type 0 where
  google microsoft apple stub : SocialProviderId

abbrev pub same_provider : SocialProviderId → SocialProviderId → Bool
same_provider google google = true
same_provider microsoft microsoft = true
same_provider apple apple = true
same_provider stub stub = true
same_provider _ _ = false

pub record ProviderRow : Type 0 where
  pub app_id : Option ℕ
  pub provider : SocialProviderId
  pub enabled : Bool

abbrev pub provider_order : List SocialProviderId
provider_order = google ∷ microsoft ∷ apple ∷ stub ∷ []

abbrev pub global_row : List ProviderRow → SocialProviderId → Option ProviderRow
global_row rows provider =
    find? (λ r. not (is_some r.app_id) && same_provider r.provider provider) rows

abbrev pub app_row : ℕ → List ProviderRow → SocialProviderId → Option ProviderRow
app_row i rows provider =
    find? (λ r. is_number r.app_id i && same_provider r.provider provider) rows

-- The predicate that `resolveEnabledProviders` filters by, for a provider with a global row.
unfoldable pub shown : Option ℕ → List ProviderRow → SocialProviderId → ProviderRow → Bool
shown none rows provider global = global.enabled
shown (some i) rows provider global = elim (app_row i rows provider) [
  | none ↦ global.enabled
  | some row ↦ row.enabled
]

unfoldable pub is_enabled :
    Option ℕ → List ProviderRow → List SocialProviderId → SocialProviderId → Bool
is_enabled app_id rows available provider =
    any (same_provider provider) available && elim (global_row rows provider) [
      | none ↦ false
      | some global ↦ shown app_id rows provider global
    ]

-- `resolveEnabledProviders`
unfoldable pub resolve_enabled_providers :
    List ProviderRow → List SocialProviderId → Option ℕ → List SocialProviderId
resolve_enabled_providers rows available app_id =
    filter (is_enabled app_id rows available) provider_order

mem-provider_order : (p : SocialProviderId) → Memᴰ p provider_order
mem-provider_order google = Memᴰ.head refl
mem-provider_order microsoft = Memᴰ.tail (Memᴰ.head refl)
mem-provider_order apple = Memᴰ.tail (Memᴰ.tail (Memᴰ.head refl))
mem-provider_order stub = Memᴰ.tail (Memᴰ.tail (Memᴰ.tail (Memᴰ.head refl)))

is_enabled_iff :
    (app_id : ℕ) (rows : List ProviderRow) (available : List SocialProviderId)
    (p : SocialProviderId)
    → (is_enabled (some app_id) rows available p ≡ true) ↔ (
        (any (same_provider p) available ≡ true)
        × ((g : ProviderRow) × (global_row rows p ≡ some g)
            × (((app_row app_id rows p ≡ none) × (g.enabled ≡ true))
                ⊎ ((r : ProviderRow) × (app_row app_id rows p ≡ some r) × (r.enabled ≡ true)))))
unfolding is_enabled shown
is_enabled_iff app_id rows available p = elim (Option-cases (global_row rows p)) [
  | inl missing ↦ ground arith
  | inr (g, found) ↦ elim (Option-cases (app_row app_id rows p)) [
    | inl inherits ↦ ground arith
    | inr (r, own) ↦ ground arith
  ]
]

-- A login screen shows a provider exactly when the deployment has credentials for it, it has a
-- global row, and the row that counts is enabled: the app's own row where there is one, otherwise
-- the global one.
pub resolve_enabled_providers_iff :
    (rows : List ProviderRow) (available : List SocialProviderId) (app_id : ℕ)
    (p : SocialProviderId)
    → Memᴰ p (resolve_enabled_providers rows available (some app_id)) ↔ (
        (any (same_provider p) available ≡ true)
        × ((g : ProviderRow) × (global_row rows p ≡ some g)
            × (((app_row app_id rows p ≡ none) × (g.enabled ≡ true))
                ⊎ ((r : ProviderRow) × (app_row app_id rows p ≡ some r) × (r.enabled ≡ true)))))
unfolding resolve_enabled_providers
resolve_enabled_providers_iff rows available app_id p =
    let listed = mem-filter_iff (is_enabled (some app_id) rows available) p provider_order in
    let enabled = is_enabled_iff app_id rows available p in
    (λ m. enabled.0 (listed.0 m).1, λ h. listed.1 (mem-provider_order p, enabled.1 h))
