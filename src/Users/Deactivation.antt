-- ===== src/Users/Deactivation.antt =====
-- What an administrator's update does to the access of a user.
use sassy_auth.Common.{
  ℕ, String, false, ◌&&◌, some, List, [], ◌∷◌, ◌≡◌, inl, inr, refl, arith, pos, ok, Option-cases,
  Result-cases, subst, any, count_where, delete_where, ◌==◌, ◌===◌, ap, ⊤,
}
use sassy_auth.Db.{SaUser, BaSession, UserStatus, active, pending, inactive, Db}
use sassy_auth.Queries.{find_user}
use sassy_auth.Queries.Keys.{find-update_where}
use sassy_auth.RefreshToken.{is_live, revoke_for_user}
use sassy_auth.RefreshToken.Revocation.{revoke_for_user_lem}
use sassy_auth.Access.Outcomes.{check_permission_cases}
use sassy_auth.Access.Tenancy.{check_permission_iff}
use sassy_auth.Users.Escalation.{MayManage}
use sassy_auth.World.{World}
use sassy_auth.Users.{users_manage}
use sassy_auth.Users.Accounts.{
  UserView, UpdateUserDto, asks_status, same_status, updated_user, update_user_row, delete_sessions,
  log_out_everywhere, updatable_user, write_update, update_user,
}

-- What a request has to meet that updates the row.
abbrev pub MayUpdate : Db → String → String → UpdateUserDto → SaUser → Type 0
MayUpdate db caller public_id dto user =
    (find_user public_id db ≡ some user)
    × MayManage db caller user.org_id
    × ((asks_status dto active && same_status user.status pending) ≡ false)
    × ((asks_status dto inactive && user.better_auth_user_id === caller) ≡ false)

updatable_user-eq-ok :
    (caller public_id : String) (dto : UpdateUserDto) (db db' : Db) (user : SaUser)
    → updatable_user caller public_id dto db ≡ (ok user, db')
    → MayUpdate db caller public_id dto user × (db ≡ db')
unfolding updatable_user
updatable_user-eq-ok caller public_id dto db db' user h =
    elim (Option-cases (find_user public_id db)) [
      | inl missing ↦ ground arith
      | inr (u, found) ↦
          elim (check_permission_cases caller users_manage (some (pos u.org_id)) db) [
            | inr refused ↦ ground arith
            | inl allowed ↦
                let same : u ≡ user = ground arith in
                let may =
                  (check_permission_iff db caller users_manage (some (pos u.org_id))).0 allowed in
                (
                  (
                    subst (λ x. find_user public_id db ≡ some x) same found,
                    subst (λ x. MayManage db caller x.org_id) same may,
                    ground arith,
                    ground arith,
                  ),
                  ground arith,
                )
          ]
    ]

updated_user-public_id :
    (dto : UpdateUserDto) (u : SaUser) → (updated_user dto u).public_id ≡ u.public_id
unfolding updated_user
updated_user-public_id dto u = refl

updated_user-status :
    (dto : UpdateUserDto) (u : SaUser) {s : UserStatus}
    → dto.status ≡ some s
    → (updated_user dto u).status ≡ s
unfolding updated_user
updated_user-status dto u e = ground arith

update_user_row-eq-ok :
    (public_id : String) (dto : UpdateUserDto) (db db' : Db) (user : SaUser) (u : ⊤)
    → find_user public_id db ≡ some user
    → update_user_row public_id dto db ≡ ok (u, db')
    → (find_user public_id db' ≡ some (updated_user dto user)) × (db'.sessions ≡ db.sessions)
unfolding update_user_row find_user
update_user_row-eq-ok public_id dto db db' user u found h =
    let moved =
      find-update_where (λ x. x.public_id === public_id) (updated_user dto) db.users user
        (λ y. ap (λ i. i === public_id) (updated_user-public_id dto y)) found in
    ground arith

no_session :
    (ba : String) (sessions : List BaSession)
    → any (λ s. s.user_id === ba) (delete_where (λ s. s.user_id === ba) sessions) ≡ false
no_session ba [] = refl
no_session ba (s ∷ ss) = ground (arith, no_session ba ss)

-- The row of a deactivated user, and what is left of the user's access.
pub record IsDeactivated (public_id : String) (user : SaUser) (w : World) : Type 0 where
  pub status : (u : SaUser) × (find_user public_id w.db ≡ some u) × (u.status ≡ inactive)
  pub sessions : any (λ s. s.user_id === user.better_auth_user_id) w.db.sessions ≡ false
  pub refresh : count_where (λ r. r.sa_user_id == user.id && is_live r) w.refresh ≡ 0

log_out-everywhere :
    (user : SaUser) (now : ℕ) (w w' : World) (u : ⊤)
    → log_out_everywhere user now w ≡ (ok u, w')
    → (w'.db ≡ delete_sessions user.better_auth_user_id w.db)
      × (w'.refresh ≡ (revoke_for_user user.id now w.refresh).1)
unfolding log_out_everywhere revoke_for_user
log_out-everywhere user now w w' u h = ground arith

write_update-deactivates :
    (public_id : String) (dto : UpdateUserDto) (now : ℕ) (user : SaUser) (w w' : World) (u : ⊤)
    → find_user public_id w.db ≡ some user
    → dto.status ≡ some inactive
    → write_update public_id dto now user w ≡ (ok u, w')
    → IsDeactivated public_id user w' × (w'.refresh ≡ (revoke_for_user user.id now w.refresh).1)
unfolding write_update delete_sessions find_user
write_update-deactivates public_id dto now user w w' u found asked h =
    elim (Result-cases (update_user_row public_id dto w.db)) [
      | inr (e, failed) ↦ ground arith
      | inl ((v, mid), done) ↦
          let (there, kept) = update_user_row-eq-ok public_id dto w.db mid user v found done in
          let after : World = record w { db = mid } in
          let rest : log_out_everywhere user now after ≡ (ok u, w') = ground arith in
          let (dbs, refresh) = log_out-everywhere user now after w' u rest in
          (
            record {
              status = (updated_user dto user, ground arith, updated_user-status dto user asked);
              sessions =
                  let gone = no_session user.better_auth_user_id mid.sessions in ground arith;
              refresh = let burned = (revoke_for_user_lem user.id now w.refresh).1 in ground arith;
            },
            refresh,
          )
    ]

-- An update that asks to deactivate and succeeds was made by a caller who may manage the user and
-- is not that user; afterwards the user's row is inactive, no session of the user is left, and no
-- refresh token of the user is live.
pub update_user-deactivates :
    (caller public_id : String) (dto : UpdateUserDto) (now : ℕ) (w w' : World) (v : UserView)
    → dto.status ≡ some inactive
    → update_user caller public_id dto now w ≡ (ok v, w')
    → (user : SaUser) × MayUpdate w.db caller public_id dto user
      × IsDeactivated public_id user w'
      × (w'.refresh ≡ (revoke_for_user user.id now w.refresh).1)
unfolding update_user
update_user-deactivates caller public_id dto now w w' v asked h =
    elim (Result-cases (updatable_user caller public_id dto w.db).0) [
      | inr (e, refused) ↦ ground arith
      | inl (user, allowed) ↦
          let whole : updatable_user caller public_id dto w.db
              ≡ (ok user, (updatable_user caller public_id dto w.db).1) =
            ground arith in
          let (may, same) = updatable_user-eq-ok caller public_id dto w.db _ user whole in
          elim (Result-cases (write_update public_id dto now user w).0) [
            | inr (e, failed) ↦ ground arith
            | inl (u, written) ↦
                let done : write_update public_id dto now user w ≡ (ok u, w') = ground arith in
                let (off, refresh) =
                  write_update-deactivates public_id dto now user w w' u may.0 asked done in
                (user, may, off, refresh)
          ]
    ]
