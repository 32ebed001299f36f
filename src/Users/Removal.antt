-- ===== src/Users/Removal.antt =====
-- What a deletion leaves of a user, and whom a list of users shows.
use sassy_auth.Common.{String, false, none, ◌≡◌, any, ◌==◌, ◌===◌}
use sassy_auth.Db.{SaUser, Db}
use sassy_auth.Queries.{find_user}

-- What is left of a user: nothing to sign in with, and no assignment.
pub record IsDeleted (public_id : String) (user : SaUser) (db : Db) : Type 0 where
  pub row : find_user public_id db ≡ none
  pub roles : any (λ r. r.user_id == user.id) db.user_roles ≡ false
  pub permissions : any (λ r. r.user_id == user.id) db.user_permissions ≡ false
  pub identity : any (λ b. b.id === user.better_auth_user_id) db.ba_users ≡ false
  pub accounts : any (λ a. a.user_id === user.better_auth_user_id) db.accounts ≡ false
  pub sessions : any (λ s. s.user_id === user.better_auth_user_id) db.sessions ≡ false
