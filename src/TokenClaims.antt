-- ===== src/TokenClaims.antt =====
-- What a token says of its user: `resolvePermissions` and `resolveRoles` of
-- apps/auth-server/src/token/token.service.ts.
use sassy_auth.Common.{
  unique, mem-unique_iff, ℕ, String, Bool, true, ◌||◌, Option, some, List, ◌++◌, map, Memᴰ, ◌≡◌,
  ◌↔◌, arith, ◌==◌, filter, find?, flat_map, plain, Exception, not_found, Action, ok, gets,
  or_throw, ◌>>=◌, mem-filter_iff, sym, ==_iff,
}
use mathlib.Core.List.Memᴰ
use sassy_auth.Db.{SaUser, SaRole, SaPermission, Db}
use sassy_auth.Access.{permissions_of_role, roles_of_user, direct_permissions_of_user}
use sassy_auth.Access.Holdings.{HasRole, mem-roles_of_user_iff}

-- `Array.prototype.sort` on texts, with what the code relies on: it keeps the members.
pub record Sorting : Type 0 where
  pub sort : List String → List String
  pub mem-sort_iff : (s : String) (xs : List String) → Memᴰ s (sort xs) ↔ Memᴰ s xs

unfoldable pub find_user_by_id : ℕ → Db → Option SaUser
find_user_by_id i db = find? (λ u. u.id == i) db.users

-- `inAudience`
abbrev pub in_audience : ℕ → SaPermission → Bool
in_audience app_id p = p.is_system || p.app_id == app_id

abbrev pub user_not_found : Exception
user_not_found = not_found (plain "USER_NOT_FOUND")

module _ (sorting : Sorting) where
  unfoldable pub resolve_permissions : ℕ → ℕ → Action Db (List String)
  resolve_permissions sa_user_id audience_app_id = do
    user ← or_throw (← gets (find_user_by_id sa_user_id)) user_not_found
    gets (λ db. sorting.sort (
        unique (
          map (λ p. p.name)
            (filter (in_audience audience_app_id) (
              flat_map (permissions_of_role db) (roles_of_user db user)
              ++ direct_permissions_of_user db user)))))

  unfoldable pub resolve_roles : ℕ → ℕ → Action Db (List String)
  resolve_roles sa_user_id audience_app_id = do
    user ← or_throw (← gets (find_user_by_id sa_user_id)) user_not_found
    gets (λ db. sorting.sort (
        unique
          (map (λ r. r.name) (filter (λ r. r.app_id == audience_app_id) (roles_of_user db user)))))

-- The names that the answer lists, of rows that the audience selects.
mem-listed_iff :
    {A : Type 0} (sorting : Sorting) (name : A → String) (selected : A → Bool) (xs : List A)
    (s : String)
    → Memᴰ s (sorting.sort (unique (map name (filter selected xs))))
      ↔ ((x : A) × Memᴰ x xs × (selected x ≡ true) × (name x ≡ s))
mem-listed_iff sorting name selected xs s = (
  λ m.
      let (x, k, e) =
        Memᴰ.of_map name _ ((mem-unique_iff s _).0 ((sorting.mem-sort_iff s _).0 m)) in
      let (row, picked) = (mem-filter_iff selected x xs).0 k in (x, row, picked, e),
  λ h. (sorting.mem-sort_iff s _).1 (
      (mem-unique_iff s _).1
        (Memᴰ.cast (sym h.3) (Memᴰ.map name ((mem-filter_iff selected h.0 xs).1 (h.1, h.2))))),
)

-- A token for an app lists a role exactly when its user has one of that name that belongs to the
-- app.
pub resolve_roles_iff :
    (sorting : Sorting) (sa_user_id app_id : ℕ) (db : Db) (user : SaUser) (n : String)
    → find_user_by_id sa_user_id db ≡ some user
    → (names : List String) × (resolve_roles sorting sa_user_id app_id db ≡ (ok names, db))
      × (Memᴰ n names ↔ ((r : SaRole) × HasRole db user r × (r.app_id ≡ app_id) × (r.name ≡ n)))
unfolding resolve_roles
resolve_roles_iff sorting sa_user_id app_id db user n found =
    let selected = λ (r : SaRole). r.app_id == app_id in
    let listed = mem-listed_iff sorting (λ r. r.name) selected (roles_of_user db user) n in
    (
      sorting.sort (unique (map (λ r. r.name) (filter selected (roles_of_user db user)))),
      ground arith,
      (
        λ m.
            let (r, k, a, e) = listed.0 m in
            (r, (mem-roles_of_user_iff db user r).0 k, (==_iff r.app_id app_id).0 a, e),
        λ h.
            listed.1 (
              h.0,
              (mem-roles_of_user_iff db user h.0).1 h.1,
              (==_iff h.0.app_id app_id).1 h.2,
              h.3,
            ),
      ),
    )

-- Both only read.
pub resolve_permissions-reads :
    (sorting : Sorting) (i app_id : ℕ) (db db' : Db) (names : List String)
    → resolve_permissions sorting i app_id db ≡ (ok names, db')
    → db' ≡ db
unfolding resolve_permissions
resolve_permissions-reads sorting i app_id db db' names h = ground arith

pub resolve_roles-reads :
    (sorting : Sorting) (i app_id : ℕ) (db db' : Db) (names : List String)
    → resolve_roles sorting i app_id db ≡ (ok names, db')
    → db' ≡ db
unfolding resolve_roles
resolve_roles-reads sorting i app_id db db' names h = ground arith
