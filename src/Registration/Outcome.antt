-- ===== src/Registration/Outcome.antt =====
-- What a registration leaves in the tables: on success, and when a step fails.
use sassy_auth.Common.{
  String, Bool, true, false, Option, none, some, List, [], ◌∷◌, ⊤, ◌≡◌, inl, inr, refl, sym, ap,
  ◌∙◌, subst, arith, ok, err, Result, Result-cases, Bool-cases, any, >>=-eq-ok, pure, commit, ◌===◌,
  eq_refl, delete_where, Exception,
}
use sassy_auth.Db.{SaApp, SaUser, BaUser, Db}
use sassy_auth.Queries.{Externals}
use sassy_auth.World.{World, on_db}
use sassy_auth.Registration.Redirect.{SignupRedirect, recover_authorize_params, signup_redirect}
use sassy_auth.Registration.Rows.{NewUser, Placed, user_row, signup_tx, delete_ba_user}
use sassy_auth.Registration.Transaction.{IsSignedUp, signup_tx-IsSignedUp}
use sassy_auth.Registration.{
  Services, Draws, SignupResponse, issue_code, send_link, finish_steps, finish_placed, send_back,
  compensate, finish_registration,
}

-- The tables without the account of an id, and without what belongs to it.
abbrev pub without_account : String → Db → Db
without_account i db = record db {
  ba_users = delete_where (λ b. b.id === i) db.ba_users;
  accounts = delete_where (λ a. a.user_id === i) db.accounts;
  sessions = delete_where (λ s. s.user_id === i) db.sessions;
  two_factors = delete_where (λ t. t.user_id === i) db.two_factors;
}

any-delete_where : {A : Type 0} (p : A → Bool) (xs : List A) → any p (delete_where p xs) ≡ false
any-delete_where p [] = refl
any-delete_where p (x ∷ xs) = ground (arith, any-delete_where p xs)

commit-eq-ok :
    {S A : Type 0} (q : S → Result (A × S)) (s s' : S) (a : A)
    → commit q s ≡ (ok a, s')
    → q s ≡ ok (a, s')
commit-eq-ok q s s' a h = elim (Result-cases (q s)) [
  | inl ((b, t), done) ↦ ground arith
  | inr (e, failed) ↦ ground arith
]

module _ (sv : Services) (ext : Externals) where
  issue_code-db :
      (app : SaApp) (user_id : String) (r : Option SignupRedirect) (draws : Draws) (w : World)
      → (issue_code sv ext app user_id r draws w).1.db ≡ w.db
  unfolding issue_code
  issue_code-db app user_id none draws w = refl
  issue_code-db app user_id (some r) draws w = ground arith

  -- The deletion of the account never throws, and the error is thrown again.
  compensate-throws :
      (ba_user_id : String) (e : Exception) (w : World)
      → (compensate sv ext ba_user_id e w).0 ≡ err e
  unfolding compensate
  compensate-throws ba_user_id e w = elim (Result-cases (delete_ba_user ba_user_id w.db)) [
    | inl ((u, db'), done) ↦ ground arith
    | inr (x, failed) ↦ ground arith
  ]

  module _ (args : NewUser) (next : Option String) (email : String) (draws : Draws) where
    send_back-eq-ok :
        (placed : Placed) (w w' : World) (r : SignupResponse)
        → send_back sv ext args next draws placed w ≡ (ok r, w')
        → (w.db ≡ w'.db) × (r.org_public_id ≡ placed.org.public_id)
    unfolding send_back
    send_back-eq-ok placed w w' r h =
        let way =
          signup_redirect sv.parse_url args.app
            (recover_authorize_params sv.parse_next next args.app.public_id) in
        let (url, s, issued, answer) =
          >>=-eq-ok (issue_code sv ext args.app placed.sa_user_public_id way draws)
            (λ url. pure (record { org_public_id = placed.org.public_id; redirect_url = url })) w w'
            r h in
        let kept = issue_code-db args.app placed.sa_user_public_id way draws w in
        let same : (issue_code sv ext args.app placed.sa_user_public_id way draws w).1.db ≡ s.db =
          ap (λ (x : Result (Option String) × World). x.1.db) issued in
        (sym kept ∙ same ∙ ap (λ (x : Result SignupResponse × World). x.1.db) answer, ground arith)

    send_link-db : (link : Bool) (w : World) → (send_link sv ext link email w).1.db ≡ w.db
    unfolding send_link
    send_link-db true w = refl
    send_link-db false w = refl

    finish_placed-eq-ok :
        (link : Bool) (placed : Placed) (w w' : World) (r : SignupResponse)
        → finish_placed sv ext args next link email draws placed w ≡ (ok r, w')
        → (w.db ≡ w'.db) × (r.org_public_id ≡ placed.org.public_id)
    unfolding finish_placed
    finish_placed-eq-ok link placed w w' r h =
        let (u, s, sent, rest) =
          >>=-eq-ok (send_link sv ext link email) (λ u. send_back sv ext args next draws placed) w
            w' r h in
        let same : (send_link sv ext link email w).1.db ≡ s.db =
          ap (λ (x : Result ⊤ × World). x.1.db) sent in
        let (kept, answer) = send_back-eq-ok placed s w' r rest in
        (sym (send_link-db link w) ∙ same ∙ kept, answer)

    finish_steps-eq-ok :
        (link : Bool) (w w' : World) (r : SignupResponse)
        → finish_steps sv ext args next link email draws w ≡ (ok r, w')
        → (placed : Placed) × (signup_tx ext args draws.pending w.db ≡ ok (placed, w'.db))
          × (r.org_public_id ≡ placed.org.public_id)
    unfolding finish_steps
    finish_steps-eq-ok link w w' r h =
        let (placed, s, done, rest) =
          >>=-eq-ok (on_db (commit (signup_tx ext args draws.pending)))
            (finish_placed sv ext args next link email draws) w w' r h in
        let (kept, answer) = finish_placed-eq-ok link placed s w' r rest in
        let committed : commit (signup_tx ext args draws.pending) w.db ≡ (ok placed, s.db) =
          ap (λ (x : Result Placed × World). (x.0, x.1.db)) done in
        (
          placed,
          subst (λ d. signup_tx ext args draws.pending w.db ≡ ok (placed, d)) kept
              (commit-eq-ok (signup_tx ext args draws.pending) w.db s.db placed committed),
          answer,
        )

    -- A registration that is answered has committed its transaction.
    pub finish_registration-IsSignedUp :
        (link : Bool) (w w' : World) (r : SignupResponse)
        → finish_registration sv ext args next link email draws w ≡ (ok r, w')
        → (placed : Placed) × IsSignedUp ext args w.db placed w'.db
          × (r.org_public_id ≡ placed.org.public_id)
    unfolding finish_registration
    finish_registration-IsSignedUp link w w' r h =
        elim (Result-cases (finish_steps sv ext args next link email draws w).0) [
          | inr (e, failed) ↦
              let threw =
                compensate-throws args.ba_user_id e
                  (finish_steps sv ext args next link email draws w).1 in
              ground arith
          | inl (a, done) ↦
              let (placed, committed, answer) = finish_steps-eq-ok link w w' r (ground arith) in
              (
                placed,
                signup_tx-IsSignedUp ext args draws.pending w.db w'.db placed committed,
                answer,
              )
        ]

    compensate-refused :
        (e : Exception) (w : World)
        → any (λ (u : SaUser). u.better_auth_user_id === args.ba_user_id) w.db.users ≡ true
        → compensate sv ext args.ba_user_id e w ≡ (err e, w)
    unfolding compensate delete_ba_user
    compensate-refused e w linked =
        elim (Bool-cases (any (λ (b : BaUser). b.id === args.ba_user_id) w.db.ba_users)) [
          | inl there ↦ ground arith
          | inr missing ↦ ground arith
        ]

    linked_after :
        (placed : Placed) (db db' : Db)
        → IsSignedUp ext args db placed db'
        → any (λ (u : SaUser). u.better_auth_user_id === args.ba_user_id) db'.users ≡ true
    unfolding user_row
    linked_after placed db db' s =
        subst
          (λ (us : List SaUser).
            any (λ (u : SaUser). u.better_auth_user_id === args.ba_user_id) us ≡ true)
          (sym s.users) (let self = eq_refl args.ba_user_id in ground arith)

    -- Where the transaction commits and the verification mail then fails, the registration answers
    -- the error of the mail and the compensation does nothing: the tables are as the transaction left
    -- them, with the new user and with the account that was made for it.
    pub mail_failure_keeps_account :
        (placed : Placed) (db' : Db) (e : Exception) (w : World)
        → signup_tx ext args draws.pending w.db ≡ ok (placed, db')
        → sv.send_verification_email email ≡ err e
        → (finish_registration sv ext args next true email draws w ≡ (err e, record w { db = db' }))
          × (any (λ (b : BaUser). b.id === args.ba_user_id) db'.ba_users ≡ true)
          × (any (λ (u : SaUser). u.better_auth_user_id === args.ba_user_id) db'.users ≡ true)
    unfolding finish_registration finish_steps finish_placed send_link
    mail_failure_keeps_account placed db' e w committed unsent =
        let signed = signup_tx-IsSignedUp ext args draws.pending w.db db' placed committed in
        let linked = linked_after placed w.db db' signed in
        let kept = compensate-refused e (record w { db = db' }) linked in
        (ground arith, signed.account, linked)

    -- Where the transaction fails, and the account that was made for the registration is there and
    -- no user of it, the registration answers the error of the transaction. That account is deleted
    -- then, with its credentials, sessions and second factors, and with those of no other account;
    -- no other table has changed, and no code or refresh token.
    pub failed_signup_deletes_account :
        (link : Bool) (e : Exception) (w : World)
        → signup_tx ext args draws.pending w.db ≡ err e
        → any (λ (b : BaUser). b.id === args.ba_user_id) w.db.ba_users ≡ true
        → any (λ (u : SaUser). u.better_auth_user_id === args.ba_user_id) w.db.users ≡ false
        → (finish_registration sv ext args next link email draws w
            ≡ (err e, record w { db = without_account args.ba_user_id w.db }))
          × (any
                (λ (b : BaUser). b.id === args.ba_user_id)
                (without_account args.ba_user_id w.db).ba_users
              ≡ false)
    unfolding finish_registration finish_steps compensate delete_ba_user
    failed_signup_deletes_account link e w failed account unlinked =
        (ground arith, any-delete_where (λ (b : BaUser). b.id === args.ba_user_id) w.db.ba_users)
