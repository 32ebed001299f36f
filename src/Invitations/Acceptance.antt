-- ===== src/Invitations/Acceptance.antt =====
-- An invitation is accepted once, in time, with a password that meets the policy.
use sassy_auth.Common.{
  ℕ, ◌≤◌, String, true, none, some, ◌∷◌, ◌≡◌, inl, inr, refl, arith, ⊤, ◌==◌, ◌===◌, find?,
  count_where, ok, err, Option-cases, Bool-cases, Result-cases, >>=-eq-ok, subst, sym, codes,
  ==_iff, Memᴰ, find?_sound, get_or, Option,
}
use sassy_auth.Db.{SaApp, SaOrg, SaUser, SaInvitation, Account, Db, active}
use sassy_auth.PasswordPolicy.{PasswordPolicy, validate_password_or_throw, resolve_password_policy}
use sassy_auth.PasswordPolicy.Meeting.{Meets, validate_password_iff}
use sassy_auth.Queries.{find_app_by_id, find_org_by_id}
use sassy_auth.Queries.Keys.{
  distinct, find-update_where, find-update_other, only_selected, any-of_count,
}
use sassy_auth.TokenClaims.{find_user_by_id}
use sassy_auth.Invitations.{
  Invited, find_invitation, open_invitation, invited_of, override_of, is_claimable, accept_tx,
  accept_open, accept_invitation, invitation_used,
}

open_invitation-eq-ok :
    (token : String) (now : ℕ) (db db' : Db) (inv : SaInvitation)
    → open_invitation token now db ≡ (ok inv, db')
    → (find_invitation token db ≡ some inv)
      × (inv.used_at ≡ none)
      × (now ≤ inv.expires_at)
      × (db ≡ db')
unfolding open_invitation
open_invitation-eq-ok token now db db' inv h = elim (Option-cases (find_invitation token db)) [
  | inl missing ↦ ground arith
  | inr (i, found) ↦ elim (Option-cases i.used_at) [
    | inr (t, used) ↦ ground arith
    | inl unused ↦
        let same : i ≡ inv = ground arith in
        (
          subst (λ x. find_invitation token db ≡ some x) same found,
          subst (λ x. x.used_at ≡ none) same unused,
          subst (λ x. now ≤ x.expires_at) same (ground arith),
          ground arith,
        )
  ]
]

invited_of-eq-ok :
    (inv : SaInvitation) (db db' : Db) (x : Invited)
    → invited_of inv db ≡ (ok x, db')
    → (find_user_by_id inv.user_id db ≡ some x.user)
      × (find_org_by_id x.user.org_id db ≡ some x.org)
      × (db ≡ db')
unfolding invited_of
invited_of-eq-ok inv db db' x h = elim (Option-cases (find_user_by_id inv.user_id db)) [
  | inl missing ↦ ground arith
  | inr (u, found) ↦ elim (Option-cases (find_org_by_id u.org_id db)) [
    | inl missing ↦ ground arith
    | inr (o, of) ↦
        let same : record { user = u; org = o } ≡ x = ground arith in
        (
          ground arith,
          subst (λ y. find_org_by_id y.user.org_id db ≡ some y.org) same of,
          ground arith,
        )
  ]
]

-- What an acceptance leaves.
pub record IsAccepted (token hashed : String) (at : ℕ) (user : SaUser) (db : Db) : Type 0 where
  pub used : (i : SaInvitation) × (find_invitation token db ≡ some i) × (i.used_at ≡ some at)
  pub status : (u : SaUser) × (find_user_by_id user.id db ≡ some u) × (u.status ≡ active)
  pub account :
      (a : Account) × Memᴰ a db.accounts
      × (a.user_id ≡ user.better_auth_user_id)
      × (a.provider_id ≡ "credential")
      × (a.password ≡ some hashed)

claimed :
    (token : String) (at : ℕ) (inv : SaInvitation) (db : Db)
    → distinct (λ i. i.id) db.invitations ≡ true
    → find_invitation token db ≡ some inv
    → (count_where (is_claimable inv.id at) db.invitations == 1) ≡ true
    → is_claimable inv.id at inv ≡ true
unfolding find_invitation
claimed token at inv db unique found one =
    let (m, _) = find?_sound (λ i. i.token === token) db.invitations found in
    let some_row =
      any-of_count (is_claimable inv.id at) db.invitations (omega (arith, (==_iff _ 1).0 one)) in
    only_selected (λ i. i.id) (is_claimable inv.id at) db.invitations inv unique m
      (λ y e. (==_iff y.id inv.id).0 (ground arith)) some_row

accept_tx-IsAccepted :
    (token hashed : String) (at : ℕ) (inv : SaInvitation) (user : SaUser) (db db' : Db) (u : ⊤)
    → distinct (λ i. i.id) db.invitations ≡ true
    → find_invitation token db ≡ some inv
    → find_user_by_id inv.user_id db ≡ some user
    → accept_tx inv user hashed at db ≡ ok (u, db')
    → IsAccepted token hashed at user db'
unfolding accept_tx find_invitation find_user_by_id
accept_tx-IsAccepted token hashed at inv user db db' u unique found of done =
    elim (Bool-cases (count_where (is_claimable inv.id at) db.invitations == 1)) [
      | inr none_claimed ↦ ground arith
      | inl one ↦
          let taken = claimed token at inv db unique found one in
          let invs =
            find-update_other (λ i. i.token === token) (is_claimable inv.id at)
              (λ i. record i { used_at = some at }) db.invitations inv (λ y. refl) found in
          let own : user.id ≡ inv.user_id =
            (==_iff user.id inv.user_id).0 (find?_sound (λ x. x.id == inv.user_id) db.users of).1 in
          let users =
            find-update_where (λ x. x.id == user.id) (λ x. record x { status = active }) db.users
              user (λ y. refl)
              (subst (λ i. find? (λ x. x.id == i) db.users ≡ some user) (sym own) of) in
          let account : Account = record {
            user_id = user.better_auth_user_id;
            provider_id = "credential";
            password = some hashed;
          } in
          let accounts : db'.accounts ≡ account ∷ db.accounts = ground arith in
          record {
            used = (record inv { used_at = some at }, ground arith, refl);
            status = (record user { status = active }, ground arith, refl);
            account = (
              account,
              subst (λ l. Memᴰ account l) (sym accounts) (Memᴰ.head refl),
              refl,
              refl,
              refl,
            );
          }
    ]

-- The policy that an app sets for itself.
abbrev pub own_policy : Option SaApp → Option PasswordPolicy
own_policy none = none
own_policy (some app) = app.password_policy_override

override_of_lem :
    (org : SaOrg) (db : Db) → override_of org db ≡ own_policy (find_app_by_id org.app_id db)
unfolding override_of
override_of_lem org db = elim (Option-cases (find_app_by_id org.app_id db)) [
  | inl missing ↦ ground arith
  | inr (app, found) ↦ ground arith
]

-- The invited user, with the organisation that the user belongs to, and a password that meets the
-- policy of that organisation's app, or else the environment's.
pub record IsInvited (policy : PasswordPolicy) (password : String) (inv : SaInvitation)
    (x : Invited) (db : Db) : Type 0 where
  pub user : find_user_by_id inv.user_id db ≡ some x.user
  pub org : find_org_by_id x.user.org_id db ≡ some x.org
  pub strong : Meets (get_or (own_policy (find_app_by_id x.org.app_id db)) policy) (codes password)

-- An acceptance that succeeds was of an invitation that was neither used nor over, with a password
-- that meets the policy that the app of the invited user's organisation sets, or the environment's
-- where it sets none; afterwards the invitation is used, the user is active, and an account with the
-- hash of the password is there. (An id has one invitation at most.)
pub accept_invitation_sound :
    (policy : PasswordPolicy) (token password hashed : String) (now at : ℕ) (db db' : Db) (u : ⊤)
    → distinct (λ i. i.id) db.invitations ≡ true
    → accept_invitation policy token password hashed now at db ≡ (ok u, db')
    → (inv : SaInvitation) × (x : Invited) × (find_invitation token db ≡ some inv)
      × (inv.used_at ≡ none)
      × (now ≤ inv.expires_at)
      × IsInvited policy password inv x db
      × IsAccepted token hashed at x.user db'
unfolding accept_invitation accept_open resolve_password_policy
accept_invitation_sound policy token password hashed now at db db' u unique h =
    let (inv, s, opened, rest) =
      >>=-eq-ok (open_invitation token now) (accept_open policy password hashed at) db db' u h in
    let (found, unused, in_time, same) = open_invitation-eq-ok token now db s inv opened in
    let rest' : accept_open policy password hashed at inv db ≡ (ok u, db') =
      subst (λ v. accept_open policy password hashed at inv v ≡ (ok u, db')) (sym same) rest in
    elim (Result-cases (invited_of inv db).0) [
      | inr (e, failed) ↦ ground arith
      | inl (x, there) ↦
          let whole : invited_of inv db ≡ (ok x, (invited_of inv db).1) = ground arith in
          let (of, placed, still) = invited_of-eq-ok inv db (invited_of inv db).1 x whole in
          let policy' = resolve_password_policy policy (override_of x.org db) in
          elim (Result-cases (validate_password_or_throw password policy')) [
            | inr (e, weak) ↦ ground arith
            | inl (v, strong) ↦ elim (Result-cases (accept_tx inv x.user hashed at db)) [
              | inr (e, lost) ↦ ground arith
              | inl ((v', done), won) ↦
                  let last : done ≡ db' = ground arith in
                  (
                    inv,
                    x,
                    found,
                    unused,
                    in_time,
                    record {
                      user = of;
                      org = placed;
                      strong =
                          subst (λ o. Meets (get_or o policy) (codes password))
                            (override_of_lem x.org db)
                            ((validate_password_iff password policy').0 strong);
                    },
                    subst (IsAccepted token hashed at x.user) last (
                        accept_tx-IsAccepted token hashed at inv x.user db done v' unique found of
                          won),
                  )
            ]
          ]
    ]

-- An invitation is good for one acceptance: after one that succeeded, every other one with the same
-- token fails as already used, with whatever password and whenever it comes, and changes nothing.
pub accept_invitation_once :
    (policy policy' : PasswordPolicy) (token password password' hashed hashed' : String)
    (now at later at' : ℕ) (db db' : Db) (u : ⊤)
    → distinct (λ i. i.id) db.invitations ≡ true
    → accept_invitation policy token password hashed now at db ≡ (ok u, db')
    → accept_invitation policy' token password' hashed' later at' db' ≡ (err invitation_used, db')
unfolding accept_invitation open_invitation
accept_invitation_once policy policy' token password password' hashed hashed' now at later at' db
      db' u unique h =
    let (_, _, _, _, _, _, accepted) =
      accept_invitation_sound policy token password hashed now at db db' u unique h in
    let (i, found, used) = accepted.used in ground arith
