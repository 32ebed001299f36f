-- ===== src/Invitations.antt =====
-- `acceptInvitation` of apps/auth-server/src/invitations/invitations.service.ts. The environment's
-- password policy, the hash that BetterAuth makes and the two readings of the clock are arguments;
-- the activation webhook and the logs are left out.
pub mod Acceptance
use sassy_auth.Common.{
  ℕ, String, Bool, true, not, ◌&&◌, Option, none, some, List, ◌∷◌, ⊤, ◌==◌, ◌===◌, is_some, ltb,
  if◌then◌else◌, find?, count_where, update_where, plain, Exception, bad_request, not_found, Result,
  ok, err, Action, ◌>>=◌, ◌>>◌, gets, or_throw, throw_if, commit,
}
use sassy_auth.Db.{SaApp, SaUser, SaOrg, SaInvitation, Db, active}
use sassy_auth.PasswordPolicy.{PasswordPolicy, validate_password_or_throw, resolve_password_policy}
use sassy_auth.Queries.{find_app_by_id, find_org_by_id}
use sassy_auth.TokenClaims.{find_user_by_id}

unfoldable pub find_invitation : String → Db → Option SaInvitation
find_invitation token db = find? (λ i. i.token === token) db.invitations

-- The invited user with the organisation.
pub record Invited : Type 0 where
  pub user : SaUser
  pub org : SaOrg

abbrev pub no_such_invitation : Exception
no_such_invitation = not_found (plain "Invitation not found")

abbrev pub invitation_used : Exception
invitation_used = bad_request (plain "Invitation already used")

-- The invitation that may be accepted at `now`.
unfoldable pub open_invitation : String → ℕ → Action Db SaInvitation
open_invitation token now = do
  inv ← or_throw (← gets (find_invitation token)) no_such_invitation
  throw_if (is_some inv.used_at) invitation_used
  throw_if (ltb inv.expires_at now) (bad_request (plain "Invitation expired"))
  λ db. (ok inv, db)

-- `include: { user: { include: { org } } }`; the foreign keys make both `some`.
unfoldable pub invited_of : SaInvitation → Action Db Invited
invited_of inv = do
  user ← or_throw (← gets (find_user_by_id inv.user_id)) no_such_invitation
  org ← or_throw (← gets (find_org_by_id user.org_id)) no_such_invitation
  λ db. (ok (record { user = user; org = org }), db)

-- `app?.passwordPolicyOverride`
unfoldable pub override_of : SaOrg → Db → Option PasswordPolicy
override_of org db = elim (find_app_by_id org.app_id db) [
  | none ↦ none
  | some app ↦ app.password_policy_override
]

-- `where: { id, usedAt: null, expiresAt: { gt: now } }`
abbrev pub is_claimable : ℕ → ℕ → SaInvitation → Bool
is_claimable i at inv = inv.id == i && not (is_some inv.used_at) && ltb at inv.expires_at

-- The transaction: it throws unless exactly one row was claimed.
unfoldable pub accept_tx : SaInvitation → SaUser → String → ℕ → Db → Result (⊤ × Db)
accept_tx inv user hashed at db =
    if count_where (is_claimable inv.id at) db.invitations == 1
    then ok (
      tt,
      record db {
        invitations =
            update_where (is_claimable inv.id at) (λ i. record i { used_at = some at })
              db.invitations;
        accounts =
            record {
              user_id = user.better_auth_user_id;
              provider_id = "credential";
              password = some hashed;
            }
            ∷ db.accounts;
        users = update_where (λ u. u.id == user.id) (λ u. record u { status = active }) db.users;
        ba_users =
            update_where (λ b. b.id === user.better_auth_user_id)
              (λ b. record b { email_verified = true }) db.ba_users;
      },
    )
    else err (bad_request (plain "Invitation already used or expired"))

-- The part behind the invitation's checks.
unfoldable pub accept_open : PasswordPolicy → String → String → ℕ → SaInvitation → Action Db ⊤
accept_open policy password hashed at inv = do
  invited ← invited_of inv
  override ← gets (override_of invited.org)
  λ db. (validate_password_or_throw password (resolve_password_policy policy override), db)
  commit (accept_tx inv invited.user hashed at)

-- `acceptInvitation`: `now` is the clock at the checks, `at` the clock at the claim.
unfoldable pub accept_invitation : PasswordPolicy → String → String → String → ℕ → ℕ → Action Db ⊤
accept_invitation policy token password hashed now at = do
  inv ← open_invitation token now
  accept_open policy password hashed at inv
