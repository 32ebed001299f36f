-- ===== src/Tests/RefreshTokens.antt =====
-- Refresh tokens of the sample deployment: one login, its rotations, and a deactivation.
use sassy_auth.Common.{
  String, none, some, [], ◌∷◌, ◌≡◌, refl, ok, err, arith, find?, count_where, ◌+◌,
}
use sassy_auth.RefreshToken.{
  SaRefreshToken, Table, RotatedRefreshToken, IssueRefreshTokenParams, has_hash, create, issued,
  issue, successor, consume, rotated, rotate_check, rotate_tx, rotate_commit, rotate, invalid_grant,
}
use sassy_auth.RefreshToken.Rows.{live_in}
use sassy_auth.RefreshToken.Rotation.{IsRedeemable}
use sassy_auth.RefreshToken.Family.{IsValid, rotate-IsValid, issue-IsValid}
use sassy_auth.RefreshToken.Redeemed.{rotate_completes}
use sassy_auth.RefreshToken.Reuse.{
  IsSuccessor, rotate_sound, replay_burns_family, race_has_one_winner,
}
use sassy_auth.Json.{safe_parse_amr}
use sassy_auth.Tests.Data.{json}

abbrev hash : String → String
hash s = s

abbrev params : IssueRefreshTokenParams
params = record {
  sa_user_id = 2;
  user_public_id = "u2";
  org_public_id = "o2";
  app_id = 2;
  app_public_id = "shop";
  scope = "openid";
  amr = "pwd" ∷ [];
  idp = none;
  auth_time = 100;
}

-- The row of the login, and the table after the login.
abbrev pub row : SaRefreshToken
row = record {
  token_hash = "a";
  family_id = "f";
  sa_user_id = 2;
  user_public_id = "u2";
  org_public_id = "o2";
  app_id = 2;
  app_public_id = "shop";
  scope = "openid";
  amr = json.stringify ("pwd" ∷ []);
  idp = none;
  auth_time = 100;
  expires_at = 100 + 2592000000;
  absolute_expires_at = 100 + 7776000000;
  revoked_at = none;
  replaced_by_token_hash = none;
}

abbrev pub table : Table
table = row ∷ []

table_issued : (issue json hash params "a" "f" 100 []).1 ≡ table
unfolding issue issued create
table_issued = refl

table-IsValid : IsValid table
unfolding issue issued create
table-IsValid =
    issue-IsValid hash json params "a" "f" 100 []
      (record { one_row = λ h. omega arith; one_live = λ f. omega arith }) refl

rotate-IsValid_example : IsValid (rotate json hash "a" "shop" "b" 200 table).1
rotate-IsValid_example = rotate-IsValid hash json "a" "shop" "b" 200 table table-IsValid

redeemable : IsRedeemable hash "a" "shop" 200 table row
redeemable = record {
  found = refl;
  of_app = refl;
  unrevoked = refl;
  in_window = omega arith;
  in_lifetime = omega arith;
}

rotate_completes_example :
    rotate json hash "a" "shop" "b" 200 table
    ≡ (ok (rotated json row "b"), successor hash row "b" 200 ∷ consume hash "a" "b" 200 table)
rotate_completes_example =
    rotate_completes json hash "a" "shop" "b" 200 table row table-IsValid redeemable refl

abbrev pub rotated_table : Table
rotated_table =
    record row { token_hash = "b"; expires_at = 200 + 2592000000 }
    ∷ record row { revoked_at = some 200; replaced_by_token_hash = some "b" }
    ∷ []

abbrev answer : RotatedRefreshToken
answer = record {
  token = "b";
  sa_user_id = 2;
  user_public_id = "u2";
  org_public_id = "o2";
  app_id = 2;
  app_public_id = "shop";
  scope = "openid";
  amr = "pwd" ∷ [];
  idp = none;
  auth_time = 100;
}

first_rotation : rotate json hash "a" "shop" "b" 200 table ≡ (ok answer, rotated_table)
unfolding rotate rotate_check rotate_commit rotate_tx consume successor create rotated
    safe_parse_amr
first_rotation = refl

rotate_sound_example :
    (r s : SaRefreshToken) × IsRedeemable hash "a" "shop" 200 table r
    × (answer ≡ rotated json r "b")
    × (find? (has_hash "a") rotated_table
        ≡ some (record r { revoked_at = some 200; replaced_by_token_hash = some "b" }))
    × (find? (has_hash "b") rotated_table ≡ some s)
    × IsSuccessor r 200 s
rotate_sound_example =
    rotate_sound hash "a" "shop" "b" 200 json table rotated_table answer first_rotation

replay_burns_family_example :
    (r : SaRefreshToken) × (t'' : Table) × (find? (has_hash "a") table ≡ some r)
    × (rotate json hash "a" "shop" "c" 300 rotated_table ≡ (err invalid_grant, t''))
    × (count_where (live_in r.family_id) t'' ≡ 0)
replay_burns_family_example =
    replay_burns_family json hash "a" "shop" "b" "c" 200 300 table rotated_table answer
      first_rotation

race_has_one_winner_example :
    rotate_commit json hash row "a" "c" 200 rotated_table ≡ (err invalid_grant, rotated_table)
unfolding rotate_commit rotate_tx consume successor create rotated safe_parse_amr
race_has_one_winner_example =
    race_has_one_winner hash "a" json row row "b" "c" 200 200 table rotated_table answer refl
