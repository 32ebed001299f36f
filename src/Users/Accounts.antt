-- ===== src/Users/Accounts.antt =====
-- The rows of users: `listUsers`, `getUser`, `updateUser` and `deleteUser` of users.service.ts.
-- The column `createdAt`, the activation webhook and the logs are left out.
use sassy_auth.Common.{
  ℕ, String, Bool, true, false, not, ◌&&◌, ◌||◌, Option, none, some, List, [], ◌∷◌, map, ⊤, ◌==◌,
  ◌===◌, is_text, get_or, ℤ, pos, negsuc, if◌then◌else◌, any, update_where, delete_where, bare,
  plain, forbidden, bad_request, not_found, prisma_error, p2002, p2025, Result, ok, err, Action,
  ◌>>=◌, ◌>>◌, pure, gets, modify, or_throw, throw_if, commit,
}
use sassy_auth.Db.{SaUser, SaOrg, UserStatus, active, pending, inactive, unverified, Db}
use sassy_auth.Access.{check_permission}
use sassy_auth.Queries.{find_user, find_org, find_org_by_id, rows_of_page}
use sassy_auth.RefreshToken.{revoke_for_user}
use sassy_auth.TokenService.{find_ba_user}
use sassy_auth.World.{World, on_db, on_refresh}
use sassy_auth.Users.{users_manage}

-- What `formatUser` makes of a row; the foreign keys make the email and the organisation `some`.
pub record UserView : Type 0 where
  pub id : String
  pub first_name : String
  pub last_name : String
  pub email : Option String
  pub phone_number : Option String
  pub username : Option String
  pub org_id : Option String
  pub status : UserStatus
  pub last_login_at : Option ℕ

unfoldable pub format_user : Db → SaUser → UserView
format_user db u = record {
  id = u.public_id;
  first_name = u.first_name;
  last_name = u.last_name;
  email = elim (find_ba_user u.better_auth_user_id db) [ none ↦ none | some b ↦ some b.email ];
  phone_number = u.phone_number;
  username = u.username;
  org_id = elim (find_org_by_id u.org_id db) [ none ↦ none | some o ↦ some o.public_id ];
  status = u.status;
  last_login_at = u.last_login_at;
}

-- `if (filters.orgPublicId)`: the organisation, or no filter; a missing one throws.
unfoldable pub org_filter : Option String → Action Db (Option SaOrg)
org_filter none = pure none
org_filter (some i) =
    if i === ""
    then pure none
    else do o ← or_throw (← gets (find_org i)) (not_found (plain "Org not found")); pure (some o)

-- `targetOrgId`: without a filter, -1, which is no organisation.
unfoldable pub target_org : Option SaOrg → ℤ
target_org none = negsuc 0
target_org (some o) = pos o.id

unfoldable pub in_org : Option SaOrg → SaUser → Bool
in_org none u = true
in_org (some o) u = u.org_id == o.id

-- `listUsers`: the first 500 rows of `orderBy: { id: 'desc' }`. The filter by app that the
-- controller hands over is not read.
unfoldable pub list_users : String → Option String → Action Db (List UserView)
list_users caller org_public_id = do
  o ← org_filter org_public_id
  check_permission caller users_manage (some (target_org o))
  gets (λ db. map (format_user db) (rows_of_page (λ u. u.id) (in_org o) 1 500 db.users))

unfoldable pub get_user : String → String → Action Db UserView
get_user caller public_id = do
  user ← or_throw (← gets (find_user public_id)) (not_found bare)
  check_permission caller users_manage (some (pos user.org_id))
  gets (λ db. format_user db user)

pub record UpdateUserDto : Type 0 where
  pub first_name : Option String
  pub last_name : Option String
  pub phone_number : Option String
  pub username : Option String
  pub status : Option UserStatus

abbrev pub same_status : UserStatus → UserStatus → Bool
same_status active active = true
same_status pending pending = true
same_status inactive inactive = true
same_status unverified unverified = true
same_status _ _ = false

-- `dto.status === s`
abbrev pub asks_status : UpdateUserDto → UserStatus → Bool
asks_status dto s = elim dto.status [ none ↦ false | some t ↦ same_status t s ]

-- The row that an update makes of a row.
unfoldable pub updated_user : UpdateUserDto → SaUser → SaUser
updated_user dto u = record u {
  first_name = get_or dto.first_name u.first_name;
  last_name = get_or dto.last_name u.last_name;
  phone_number = elim dto.phone_number [ none ↦ u.phone_number | some n ↦ some n ];
  username = elim dto.username [ none ↦ u.username | some n ↦ some n ];
  status = get_or dto.status u.status;
}

-- A column with a unique index takes a value that another row has.
abbrev pub takes : Option String → Option String → Bool
takes none column = false
takes (some value) column = is_text column value

-- `saUser.update({ where: { publicId } })`: phone number and username are unique.
unfoldable pub update_user_row : String → UpdateUserDto → Db → Result (⊤ × Db)
update_user_row public_id dto db =
    if not (any (λ u. u.public_id === public_id) db.users)
    then err (prisma_error p2025)
    else if any
        (λ u.
          not (u.public_id === public_id)
          && (takes dto.phone_number u.phone_number || takes dto.username u.username))
        db.users
    then err (prisma_error p2002)
    else ok (
      tt,
      record db {
        users = update_where (λ u. u.public_id === public_id) (updated_user dto) db.users;
      },
    )

-- `session.deleteMany({ where: { userId } })`
unfoldable pub delete_sessions : String → Db → Db
delete_sessions ba db = record db { sessions = delete_where (λ s. s.user_id === ba) db.sessions }

-- The kill switch: every session and refresh token of the user.
unfoldable pub log_out_everywhere : SaUser → ℕ → Action World ⊤
log_out_everywhere user now = do
  on_db (modify (delete_sessions user.better_auth_user_id))
  on_refresh (revoke_for_user user.id now)

-- The checks of `updateUser`: the row that the request may update.
unfoldable pub updatable_user : String → String → UpdateUserDto → Action Db SaUser
updatable_user caller public_id dto = do
  user ← or_throw (← gets (find_user public_id)) (not_found bare)
  check_permission caller users_manage (some (pos user.org_id))
  throw_if (asks_status dto active && same_status user.status pending) (
      bad_request (
        plain
          "A pending user becomes active only by accepting their invitation. Use /resend-invitation instead."))
  throw_if (asks_status dto inactive && user.better_auth_user_id === caller)
      (forbidden (plain "You cannot deactivate your own account"))
  pure user

-- What `updateUser` writes, for the row that was read.
unfoldable pub write_update : String → UpdateUserDto → ℕ → SaUser → Action World ⊤
write_update public_id dto now user = do
  on_db (commit (update_user_row public_id dto))
  if asks_status dto inactive then log_out_everywhere user now else pure tt

unfoldable pub update_user : String → String → UpdateUserDto → ℕ → Action World UserView
update_user caller public_id dto now = do
  user ← on_db (updatable_user caller public_id dto)
  write_update public_id dto now user
  gets (λ w. format_user w.db (updated_user dto user))

-- The transaction of `deleteUser`: the two rows, and what the schema deletes with them.
unfoldable pub delete_user_rows : String → SaUser → Db → Result (⊤ × Db)
delete_user_rows public_id user db =
    if not (any (λ u. u.public_id === public_id) db.users)
    then err (prisma_error p2025)
    else if not (any (λ b. b.id === user.better_auth_user_id) db.ba_users)
    then err (prisma_error p2025)
    else ok (
      tt,
      record db {
        users = delete_where (λ u. u.public_id === public_id) db.users;
        user_roles = delete_where (λ r. r.user_id == user.id) db.user_roles;
        user_permissions = delete_where (λ r. r.user_id == user.id) db.user_permissions;
        invitations = delete_where (λ i. i.user_id == user.id) db.invitations;
        consents = delete_where (λ c. c.sa_user_id == user.id) db.consents;
        ba_users = delete_where (λ b. b.id === user.better_auth_user_id) db.ba_users;
        accounts = delete_where (λ a. a.user_id === user.better_auth_user_id) db.accounts;
        sessions = delete_where (λ s. s.user_id === user.better_auth_user_id) db.sessions;
        two_factors = delete_where (λ t. t.user_id === user.better_auth_user_id) db.two_factors;
      },
    )

unfoldable pub delete_user : String → String → Action Db ⊤
delete_user caller public_id = do
  user ← or_throw (← gets (find_user public_id)) (not_found bare)
  throw_if (user.better_auth_user_id === caller)
      (forbidden (plain "You cannot delete your own account"))
  check_permission caller ("platform.users.manage" ∷ []) (some (pos user.org_id))
  commit (delete_user_rows public_id user)
