-- ===== src/Tests/Accounts.antt =====
-- Users and invitations of the sample deployment.

use sassy_auth.Common.{◌≤◌, true, false, none, some, [], ◌∷◌, ◌≡◌, ◌≢◌, ◌⊎◌, refl, ok, err, Memᴰ}
use sassy_auth.Db.{SaUser, SaInvitation, Db, active, inactive, pending}
use sassy_auth.Access.{
  find_user_by_ba_id, find_role_by_id, find_permission_by_id, permissions_of_role, roles_of_user,
  direct_permissions_of_user, permission_names, is_platform_permission, holds_platform, allows,
  check_permission,
}
use sassy_auth.Access.Tenancy.{HoldsPlatform}
use sassy_auth.Queries.{
  find_user, find_app_by_id, find_org, find_org_by_id, sort_desc, rows_of_page,
}
use sassy_auth.RefreshToken.{revoke_for_user, revoke_where}
use sassy_auth.TokenService.{find_ba_user, asks_for}
use sassy_auth.TokenClaims.{find_user_by_id}
use sassy_auth.World.{World}
use sassy_auth.TokenEndpoint.{RefreshRequest, TokenResponse, refresh_grant}
use sassy_auth.ServiceGuard.{VerifyJwt, split_spaces, bearer_of, can_activate}
use sassy_auth.ServiceGuard.Access.{can_activate_iff}
use sassy_auth.Users.{users_manage}
use sassy_auth.Users.Accounts.{
  UserView, UpdateUserDto, format_user, org_filter, target_org, in_org, list_users, updated_user,
  update_user_row, delete_sessions, log_out_everywhere, updatable_user, write_update, update_user,
}
use sassy_auth.Users.Deactivation.{MayUpdate, IsDeactivated, update_user-deactivates}
use sassy_auth.Users.Lockout.{deactivated_gets_no_tokens}
use sassy_auth.Users.Listing.{list_users_isolates}
use sassy_auth.PasswordPolicy.{
  PasswordPolicy, flag_rule, count_rules, evaluate_password_policy, get_failed_password_rules,
  validate_password_or_throw, resolve_password_policy,
}
use sassy_auth.Invitations.{
  Invited, find_invitation, open_invitation, invited_of, override_of, accept_tx, accept_open,
  accept_invitation, invitation_used,
}
use sassy_auth.Invitations.Acceptance.{
  IsInvited, IsAccepted, accept_invitation_sound, accept_invitation_once,
}
use sassy_auth.Tests.Data.{db, root, anna, ben}
use sassy_auth.Tests.RefreshTokens
use sassy_auth.Tests.Endpoint.{platform, world}

abbrev anna_view : UserView
anna_view = record {
  id = "u2";
  first_name = "Anna";
  last_name = "North";
  email = some "anna@north";
  phone_number = none;
  username = none;
  org_id = some "o2";
  status = active;
  last_login_at = none;
}

abbrev ben_view : UserView
ben_view = record {
  id = "u3";
  first_name = "Ben";
  last_name = "North";
  email = some "ben@north";
  phone_number = none;
  username = none;
  org_id = some "o2";
  status = pending;
  last_login_at = none;
}

list_users_isolates_example :
    (c : SaUser) × (u : SaUser) × (find_user_by_ba_id "anna" db ≡ some c)
    × Memᴰ u db.users
    × (anna_view ≡ format_user db u)
    × (HoldsPlatform db c users_manage ⊎ (u.org_id ≡ c.org_id))
unfolding list_users org_filter target_org in_org format_user find_org find_org_by_id find_ba_user
    rows_of_page sort_desc check_permission find_user_by_ba_id permission_names permissions_of_role
    roles_of_user direct_permissions_of_user find_role_by_id find_permission_by_id
    is_platform_permission holds_platform allows
list_users_isolates_example =
    list_users_isolates "anna" (some "o2") db db (ben_view ∷ anna_view ∷ []) anna_view refl
      (Memᴰ.tail (Memᴰ.head refl))

abbrev deactivation : UpdateUserDto
deactivation = record {
  first_name = none;
  last_name = none;
  phone_number = none;
  username = none;
  status = some inactive;
}

-- Root deactivates Anna.
abbrev after_deactivation : World
after_deactivation = record world {
  db = record db {
    users = root ∷ record anna { status = inactive } ∷ ben ∷ [];
    sessions = record { token = "s2"; user_id = "root" } ∷ [];
  };
  refresh = record RefreshTokens.row { revoked_at = some 300 } ∷ [];
}

deactivated :
    update_user "root" "u2" deactivation 300 world
    ≡ (ok (record anna_view { status = inactive }), after_deactivation)
unfolding update_user updatable_user find_user check_permission find_user_by_ba_id permission_names
    permissions_of_role roles_of_user direct_permissions_of_user find_role_by_id
    find_permission_by_id is_platform_permission holds_platform allows write_update update_user_row
    updated_user log_out_everywhere delete_sessions revoke_for_user revoke_where format_user
    find_ba_user find_org_by_id
deactivated = refl

update_user-deactivates_example :
    (user : SaUser) × MayUpdate db "root" "u2" deactivation user
    × IsDeactivated "u2" user after_deactivation
    × (after_deactivation.refresh ≡ (revoke_for_user user.id 300 world.refresh).1)
update_user-deactivates_example =
    update_user-deactivates "root" "u2" deactivation 300 world after_deactivation
      (record anna_view { status = inactive }) refl deactivated

abbrev annas_refresh : RefreshRequest
annas_refresh = record {
  client = record { client_id = "shop"; secret = some "s3cret" };
  refresh_token = "a";
}

abbrev some_response : TokenResponse
some_response = record {
  access_token = "openid";
  token_type = "Bearer";
  expires_in = 3600;
  scope = "openid";
  id_token = some "id";
  refresh_token = some "b";
}

deactivated_gets_no_tokens_example :
    refresh_grant platform annas_refresh "b" 400 after_deactivation
    ≢ (ok some_response, after_deactivation)
unfolding find_user
deactivated_gets_no_tokens_example =
    deactivated_gets_no_tokens platform "root" "u2" deactivation 300 400 world after_deactivation
      after_deactivation (record anna_view { status = inactive }) annas_refresh "b" some_response
      (record RefreshTokens.row { revoked_at = some 300 }) anna refl deactivated refl refl refl

abbrev without_ben : Db
without_ben = record db {
  users = root ∷ anna ∷ [];
  user_roles = record { user_id = 1; role_id = 1 } ∷ record { user_id = 2; role_id = 2 } ∷ [];
  invitations = [];
  ba_users =
      record { id = "root"; email = "root@admin"; email_verified = true; two_factor_enabled = true }
      ∷ record {
        id = "anna";
        email = "anna@north";
        email_verified = true;
        two_factor_enabled = false;
      }
      ∷ [];
}

-- A verifier that knows one token.
abbrev verify_jwt : VerifyJwt
verify_jwt issuer audience now token =
    some (record { azp = some "shop"; scope = some "roles:write"; token_use = some "service" })

can_activate_iff_example :
    can_activate platform verify_jwt 200 "Bearer service"
    ≡ ok (record { app_id = 2; app_public_id = "shop" })
unfolding bearer_of split_spaces asks_for
can_activate_iff_example =
    (can_activate_iff platform verify_jwt 200 "Bearer service"
        (record { app_id = 2; app_public_id = "shop" })).1
      (
        "service",
        record { azp = some "shop"; scope = some "roles:write"; token_use = some "service" },
        refl,
        refl,
        refl,
        (refl, refl, λ e. cc, refl),
      )

abbrev policy : PasswordPolicy
policy = record {
  min_length = 12;
  require_uppercase = true;
  require_lowercase = true;
  require_number = true;
  require_special = false;
  min_numbers = 1;
  min_special = 0;
}

-- Ben accepts his invitation.
abbrev after_acceptance : Db
after_acceptance = record db {
  users = root ∷ anna ∷ record ben { status = active } ∷ [];
  ba_users =
      record { id = "root"; email = "root@admin"; email_verified = true; two_factor_enabled = true }
      ∷ record {
        id = "anna";
        email = "anna@north";
        email_verified = true;
        two_factor_enabled = false;
      }
      ∷ record {
        id = "ben";
        email = "ben@north";
        email_verified = true;
        two_factor_enabled = false;
      }
      ∷ [];
  accounts =
      record { user_id = "ben"; provider_id = "credential"; password = some "hash" }
      ∷ record { user_id = "anna"; provider_id = "credential"; password = some "hash of pass" }
      ∷ [];
  invitations =
      record {
        id = 1;
        public_id = "i1";
        token = "t1";
        user_id = 3;
        expires_at = 900;
        used_at = some 501;
      }
      ∷ [];
}

accepted :
    accept_invitation policy "t1" "Abcdefghijk1" "hash" 500 501 db ≡ (ok tt, after_acceptance)
unfolding accept_invitation open_invitation find_invitation accept_open invited_of find_user_by_id
    find_org_by_id override_of find_app_by_id resolve_password_policy validate_password_or_throw
    get_failed_password_rules evaluate_password_policy flag_rule count_rules accept_tx
accepted = refl

accept_invitation_sound_example :
    (inv : SaInvitation) × (x : Invited) × (find_invitation "t1" db ≡ some inv)
    × (inv.used_at ≡ none)
    × (500 ≤ inv.expires_at)
    × IsInvited policy "Abcdefghijk1" inv x db
    × IsAccepted "t1" "hash" 501 x.user after_acceptance
accept_invitation_sound_example =
    accept_invitation_sound policy "t1" "Abcdefghijk1" "hash" 500 501 db after_acceptance tt refl
      accepted

accept_invitation_once_example :
    accept_invitation policy "t1" "Zyxwvutsrqp2" "other" 600 601 after_acceptance
    ≡ (err invitation_used, after_acceptance)
accept_invitation_once_example =
    accept_invitation_once policy policy "t1" "Abcdefghijk1" "Zyxwvutsrqp2" "hash" "other" 500 501
      600 601 db after_acceptance tt refl accepted
