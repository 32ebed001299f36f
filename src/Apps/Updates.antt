-- ===== src/Apps/Updates.antt =====
-- `updateApp` keeps the invariant: what its checks find, and what it then writes.
use sassy_auth.Common.{
  ℕ, String, Bool, true, false, Option, none, some, List, ⊤, ◌≡◌, ◌⊎◌, inl, inr, refl, sym, subst,
  ◌∙◌, arith, Action, ok, err, Result, Bool-cases, throw_if, commit, pure, Exception, ◌>>=◌, ◌>>◌,
  >>=-eq-ok, bind_after, bind-reads,
}
use sassy_auth.RedirectUri.{Url}
use sassy_auth.PasswordPolicy.{PasswordPolicy}
use sassy_auth.Db.{SaApp, SaOrg, SaRole, Db}
use sassy_auth.Apps.Validation.{
  assert_valid_redirect_uris, assert_valid_password_policy_override,
  assert_valid_activation_email_override, assert_valid_email_verification_method,
}
use sassy_auth.Apps.Settings.{UpdateAppDto, names_nothing}
use sassy_auth.Apps.Writes.{
  GivenOrg, GivenRole, IsChecked, resolve_default_org_id_lem, resolve_default_role_id_lem,
}
use sassy_auth.Apps.Invariant.{IsConsistent}
use sassy_auth.Apps.{
  or_name_taken, platform_app, present, resolve_default_org_id, resolve_default_role_id,
  check_fields, resolve_defaults, view_of_id, update_app, check, check_given, update_app_tx,
  UpdateCheck, check_update, write_update, update_managed_app,
}
use sassy_auth.Apps.Kept.{
  view_of_id-reads, after_find, or_name_taken-Consistent, then_reads, update_app_tx-Preserves,
}

abbrev Passed : Bool → Result ⊤ → Result ⊤ → Result ⊤ → Type 0
Passed platform a b c = (platform ≡ false) × (a ≡ ok tt) × (b ≡ ok tt) × (c ≡ ok tt)

checks_cases :
    (platform : Bool) (a b c d : Result ⊤) (db : Db)
    → let m : Action Db ⊤ = (do
      throw_if platform platform_app
      check a
      check b
      check c
      check d) in
      ((m db ≡ (ok tt, db)) × Passed platform a b c) ⊎ ((e : Exception) × (m db ≡ (err e, db)))
checks_cases true a b c d db = inr (platform_app, refl)
checks_cases false (err e) b c d db = inr (e, refl)
checks_cases false (ok u) (err e) c d db = inr (e, refl)
checks_cases false (ok u) (ok v) (err e) d db = inr (e, refl)
checks_cases false (ok u) (ok v) (ok w) (err e) db = inr (e, refl)
checks_cases false (ok u) (ok v) (ok w) (ok x) db = inl (refl, (refl, refl, refl, refl))

resolve_default_org_id-reads :
    (i : ℕ) (given : Option (Option String)) (db : Db) → (resolve_default_org_id i given db).1 ≡ db
unfolding resolve_default_org_id
resolve_default_org_id-reads i none db = refl
resolve_default_org_id-reads i (some none) db = refl
resolve_default_org_id-reads i (some (some given)) db = ground arith

resolve_default_role_id-reads :
    (i : ℕ) (given : Option (Option String)) (db : Db) → (resolve_default_role_id i given db).1 ≡ db
unfolding resolve_default_role_id
resolve_default_role_id-reads i none db = refl
resolve_default_role_id-reads i (some none) db = refl
resolve_default_role_id-reads i (some (some given)) db = ground arith

module _ (parse_url : String → Option Url) (orgs : List SaOrg) (roles : List SaRole) where
  abbrev Consistent : Db → Type 0
  Consistent = IsConsistent parse_url orgs roles

  -- What the checks of an update that goes on have found; they change nothing.
  abbrev FieldsChecked : UpdateAppDto → SaApp → Type 0
  FieldsChecked dto existing =
      Passed existing.is_platform
        (check_given (assert_valid_redirect_uris parse_url) dto.redirect_uris)
        (check_given assert_valid_password_policy_override (present dto.password_policy_override))
        (check_given assert_valid_activation_email_override (present dto.activation_email_override))

  check_fields_lem :
      (dto : UpdateAppDto) (existing : SaApp) (db : Db)
      → ((check_fields parse_url dto existing db ≡ (ok tt, db)) × FieldsChecked dto existing)
        ⊎ ((e : Exception) × (check_fields parse_url dto existing db ≡ (err e, db)))
  unfolding check_fields
  check_fields_lem dto existing db =
      checks_cases existing.is_platform
        (check_given (assert_valid_redirect_uris parse_url) dto.redirect_uris)
        (check_given assert_valid_password_policy_override (present dto.password_policy_override))
        (check_given assert_valid_activation_email_override (present dto.activation_email_override))
        (check_given assert_valid_email_verification_method dto.email_verification_method) db

  defaults_lem :
      (dto : UpdateAppDto) (i : ℕ) (db db' : Db) (u : UpdateCheck)
      → resolve_defaults dto i db ≡ (ok u, db')
      → (db ≡ db') × GivenOrg db.orgs i u.org × GivenRole db.roles i u.role
  unfolding resolve_defaults
  defaults_lem dto i db db' u h =
      let (o, mid, org, rest) =
        >>=-eq-ok (resolve_default_org_id i dto.default_org_id)
          (λ org. do
            role ← resolve_default_role_id i dto.default_role_id
            pure (record { org = org; role = role }))
          db db' u h in
      let (r, end, role, answer) =
        >>=-eq-ok (resolve_default_role_id i dto.default_role_id)
          (λ role. pure (record { org = o; role = role })) mid db' u rest in
      let (same, given) = resolve_default_org_id_lem i dto.default_org_id db mid o org in
      let (same', given') = resolve_default_role_id_lem i dto.default_role_id mid end r role in
      let of_org : o ≡ u.org = ground arith in
      let of_role : r ≡ u.role = ground arith in
      let unchanged : db ≡ db' = same ∙ same' ∙ ground arith in
      (
        unchanged,
        subst (GivenOrg db.orgs i) of_org given,
        subst (GivenRole db.roles i) of_role
            (subst (λ (d : Db). GivenRole d.roles i r) (sym same) given'),
      )

  check_update_lem :
      (dto : UpdateAppDto) (existing : SaApp) (db db' : Db) (u : UpdateCheck)
      → check_update parse_url dto existing db ≡ (ok u, db')
      → (db ≡ db')
        × FieldsChecked dto existing
        × GivenOrg db.orgs existing.id u.org
        × GivenRole db.roles existing.id u.role
  unfolding check_update
  check_update_lem dto existing db db' u h = elim (check_fields_lem dto existing db) [
    | inr (e, refused) ↦ ground arith
    | inl (passed, fields) ↦
        let (same, org, role) = defaults_lem dto existing.id db db' u (ground arith) in
        (same, fields, org, role)
  ]

  resolve_defaults-reads :
      (dto : UpdateAppDto) (i : ℕ) (db : Db) → (resolve_defaults dto i db).1 ≡ db
  unfolding resolve_defaults
  resolve_defaults-reads dto i db =
      bind_after (λ t. t ≡ db) (resolve_default_org_id i dto.default_org_id)
        (λ org. (do
          role ← resolve_default_role_id i dto.default_role_id
          pure (record { org = org; role = role })))
        db (resolve_default_org_id-reads i dto.default_org_id db)
        λ org t h k.
          let same = (resolve_default_org_id_lem i dto.default_org_id db t org h).0 in
          bind-reads (resolve_default_role_id i dto.default_role_id)
            (λ role. pure (record { org = org; role = role })) t (λ a s. refl)
          ∙ resolve_default_role_id-reads i dto.default_role_id t
          ∙ sym same

  check_update-reads :
      (dto : UpdateAppDto) (existing : SaApp) (db : Db)
      → (check_update parse_url dto existing db).1 ≡ db
  unfolding check_update
  check_update-reads dto existing db = elim (check_fields_lem dto existing db) [
    | inr (e, refused) ↦ ground arith
    | inl (passed, fields) ↦ ground (arith, resolve_defaults-reads dto existing.id db)
  ]

  write_update-Consistent :
      (policy : PasswordPolicy) (dto : UpdateAppDto) (existing : SaApp) (u : UpdateCheck) (db : Db)
      → IsChecked parse_url orgs roles dto existing.id u.org u.role
      → Consistent db
      → Consistent (write_update parse_url policy dto existing u db).1
  unfolding write_update
  write_update-Consistent policy dto existing u db checked c =
      then_reads parse_url orgs roles
        (or_name_taken (commit (update_app_tx dto existing.id u.org u.role)))
        (λ a. view_of_id policy existing.id) db (λ a t. view_of_id-reads policy existing.id t)
        (or_name_taken-Consistent parse_url orgs roles (update_app_tx dto existing.id u.org u.role)
          db (update_app_tx-Preserves parse_url orgs roles dto existing.id u.org u.role checked) c)

  update_managed_app-Consistent :
      (policy : PasswordPolicy) (dto : UpdateAppDto) (existing : SaApp) (db : Db)
      → Consistent db
      → Consistent (update_managed_app parse_url policy dto existing db).1
  unfolding update_managed_app
  update_managed_app-Consistent policy dto existing db c =
      bind_after Consistent (check_update parse_url dto existing)
        (write_update parse_url policy dto existing) db
        (subst Consistent (sym (check_update-reads dto existing db)) c)
        λ u t h k.
          let (same, (own, redirects, policy', branding), org, role) =
            check_update_lem dto existing db t u h in
          let c' : Consistent t = subst Consistent same c in
          write_update-Consistent policy dto existing u t
            (record {
              redirects = redirects;
              policy = policy';
              branding = branding;
              of_org = subst (λ os. GivenOrg os existing.id u.org) c.same_orgs org;
              of_role = subst (λ rs. GivenRole rs existing.id u.role) c.same_roles role;
            })
            c'

  pub update_app-Consistent :
      (policy : PasswordPolicy) (caller public_id : String) (dto : UpdateAppDto) (db : Db)
      → Consistent db
      → Consistent (update_app parse_url policy caller public_id dto db).1
  unfolding update_app
  update_app-Consistent policy caller public_id dto db c = elim (Bool-cases (names_nothing dto)) [
    | inl nothing ↦ subst Consistent (ground arith) c
    | inr something ↦ subst Consistent (ground arith) (
        after_find Consistent caller public_id (update_managed_app parse_url policy dto) db
          (λ a found. update_managed_app-Consistent policy dto a db c) c)
  ]
