-- ===== src/TokenEndpoint/Authorize/Keys.antt =====
-- What the schema and the Sqids make unique: the rows that public ids name.
use sassy_auth.Common.{
  String, Bool, true, not, ◌&&◌, some, List, [], ◌∷◌, Memᴰ, ◌≡◌, inl, inr, arith, All, ◌==◌, ◌===◌,
  ==_iff, eq_iff, find?, any, any_none, find?_sound,
}
use mathlib.Core.List.Memᴰ
use sassy_auth.Db.{SaApp, SaUser, Db}
use sassy_auth.Platform.{Platform}
use sassy_auth.Queries.{find_app_by_id, find_user}
use sassy_auth.TokenEndpoint.Clients.{IsClient}

-- No two users have the same public id: the column is unique.
abbrev pub distinct_users : List SaUser → Bool
distinct_users [] = true
distinct_users (u ∷ us) = not (any (λ v. v.public_id === u.public_id) us) && distinct_users us

find-of_distinct :
    (us : List SaUser) (u : SaUser)
    → distinct_users us ≡ true
    → Memᴰ u us
    → find? (λ v. v.public_id === u.public_id) us ≡ some u
find-of_distinct [] u d m = elim m [ ]
find-of_distinct (x ∷ xs) u d m = elim (Memᴰ.cases_cons m) [
  | inl e ↦ rw e (ground (arith, eq_iff x.public_id x.public_id))
  | inr k ↦
      let apart = any_none (λ v. v.public_id === x.public_id) xs (ground arith) u k in
      ground (
        arith,
        find-of_distinct xs u,
        eq_iff x.public_id u.public_id,
        eq_iff u.public_id x.public_id,
      )
]

-- A user of the table is the one that its public id finds.
pub find_user-of_distinct :
    (db : Db) (u : SaUser)
    → distinct_users db.users ≡ true
    → Memᴰ u db.users
    → find_user u.public_id db ≡ some u
unfolding find_user
find_user-of_distinct db u d m = find-of_distinct db.users u d m

-- The public id of each app is the Sqid of its id.
abbrev pub SqidsDecode : Platform → Db → Type 0
SqidsDecode p db = All (λ (a : SaApp). p.decode_sqid a.public_id ≡ some a.id) db.apps

sqid_of_member :
    (p : Platform) (apps : List SaApp) (a : SaApp)
    → All (λ (x : SaApp). p.decode_sqid x.public_id ≡ some x.id) apps
    → Memᴰ a apps
    → p.decode_sqid a.public_id ≡ some a.id
sqid_of_member p [] a h m = elim m [ ]
sqid_of_member p (x ∷ xs) a (first, rest) m = elim (Memᴰ.cases_cons m) [
  | inl e ↦ rw e first
  | inr k ↦ sqid_of_member p xs a rest k
]

-- An app is the client of its own public id, and of no other app's.
pub same_client :
    (p : Platform) (db : Db) (client_id : String) (app found : SaApp)
    → SqidsDecode p db
    → IsClient p db client_id app
    → IsClient p db app.public_id found
    → found ≡ app
unfolding find_app_by_id
same_client p db client_id app found sqids (i, decoded, here) (j, decoded', there) =
    let (m, id) = find?_sound (λ a. a.id == i) db.apps here in
    let own = sqid_of_member p db.apps app sqids m in
    let is_i = (==_iff app.id i).0 id in ground arith
