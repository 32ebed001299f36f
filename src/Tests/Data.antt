-- ===== src/Tests/Data.antt =====
-- A small deployment: the platform with its administrator, and a shop with two organisations.
use Prim.Native.Char.{code}
use sassy_auth.Common.{
  ℕ, String, Bool, true, false, none, some, List, [], ◌∷◌, map, ◌≡◌, refl, ap, ◌==◌, if◌then◌else◌,
}
use sassy_auth.RedirectUri.{RedirectUriApp, login, post_logout}
use sassy_auth.Json.{JsonText, array, str}
use sassy_auth.Consent.{ConsentAppUrls}
use sassy_auth.Db.{
  Appearance, Activation, BaUser, SaApp, SaOrg, SaUser, SaRole, SaPermission, Db, active, pending,
  link,
}
use sassy_auth.Queries.{Externals}
use sassy_auth.TokenClaims.{Sorting}

abbrev pub shop_redirects : RedirectUriApp
shop_redirects = record {
  url = "https://shop";
  redirect_uris =
      record { uri = "https://shop/callback"; kind = login }
      ∷ record { uri = "https://shop/bye"; kind = post_logout }
      ∷ [];
}

abbrev plain_pages : Appearance
plain_pages = record {
  logo = none;
  favicon = none;
  page_light_background_color = none;
  page_dark_background_color = none;
  card_light_background_color = none;
  card_dark_background_color = none;
}

abbrev by_link : Activation
by_link = record {
  webhook_url = none;
  webhook_secret = none;
  email_override = none;
  email_verification_method = link;
}

abbrev no_documents : ConsentAppUrls
no_documents = record { privacy_policy_url = none; terms_url = none; gdpr_url = none }

abbrev pub shop : SaApp
shop = record {
  id = 2;
  public_id = "shop";
  name = "Shop";
  is_platform = false;
  default_org_id = none;
  default_role_id = some 3;
  require_two_factor = false;
  allow_offline_access = true;
  can_manage_own_roles = true;
  client_secret_hash = some "hash of s3cret";
  client_secret_updated_at = none;
  two_factor_trust_days = none;
  two_factor_prompt_enabled = none;
  appearance = plain_pages;
  activation = by_link;
  consent_urls = record no_documents { privacy_policy_url = some "https://shop/privacy" };
  password_policy_override = none;
  redirects = shop_redirects;
}

abbrev pub root : SaUser
root = record {
  id = 1;
  public_id = "u1";
  better_auth_user_id = "root";
  org_id = 1;
  first_name = "Root";
  last_name = "Admin";
  marketing_opt_in = false;
  phone_number = none;
  username = none;
  status = active;
  last_login_at = none;
}

abbrev pub anna : SaUser
anna = record {
  id = 2;
  public_id = "u2";
  better_auth_user_id = "anna";
  org_id = 2;
  first_name = "Anna";
  last_name = "North";
  marketing_opt_in = false;
  phone_number = none;
  username = none;
  status = active;
  last_login_at = none;
}

abbrev pub ben : SaUser
ben = record {
  id = 3;
  public_id = "u3";
  better_auth_user_id = "ben";
  org_id = 2;
  first_name = "Ben";
  last_name = "North";
  marketing_opt_in = false;
  phone_number = none;
  username = none;
  status = pending;
  last_login_at = none;
}

abbrev pub north : SaOrg
north = record { id = 2; public_id = "o2"; name = "North"; app_id = 2; is_platform = false }

abbrev pub clerk : SaRole
clerk = record { id = 3; public_id = "r3"; name = "Clerk"; app_id = 2 }

abbrev pub packer : SaRole
packer = record { id = 4; public_id = "r4"; name = "Packer"; app_id = 2 }

abbrev permission : ℕ → String → ℕ → Bool → SaPermission
permission i name app system = record {
  id = i;
  public_id = name;
  name = name;
  app_id = app;
  is_system = system;
}

abbrev pub orders_read : SaPermission
orders_read = permission 3 "orders.read" 2 false

abbrev pub anna_account : BaUser
anna_account = record {
  id = "anna";
  email = "anna@north";
  email_verified = true;
  two_factor_enabled = false;
}

abbrev pub db : Db
db = record {
  apps =
      record {
        id = 1;
        public_id = "platform";
        name = "Platform";
        is_platform = true;
        default_org_id = some 1;
        default_role_id = none;
        require_two_factor = true;
        allow_offline_access = false;
        can_manage_own_roles = false;
        client_secret_hash = none;
        client_secret_updated_at = none;
        two_factor_trust_days = none;
        two_factor_prompt_enabled = none;
        appearance = plain_pages;
        activation = by_link;
        consent_urls = no_documents;
        password_policy_override = none;
        redirects = record { url = "https://admin"; redirect_uris = [] };
      }
      ∷ shop
      ∷ [];
  orgs =
      record { id = 1; public_id = "o1"; name = "Platform"; app_id = 1; is_platform = true }
      ∷ north
      ∷ record { id = 3; public_id = "o3"; name = "South"; app_id = 2; is_platform = false }
      ∷ [];
  users = root ∷ anna ∷ ben ∷ [];
  roles =
      record { id = 1; public_id = "r1"; name = "Admin"; app_id = 1 }
      ∷ record { id = 2; public_id = "r2"; name = "Manager"; app_id = 2 }
      ∷ clerk
      ∷ packer
      ∷ [];
  permissions =
      permission 1 "platform.users.manage" 1 true
      ∷ permission 2 "org.users.manage" 1 true
      ∷ orders_read
      ∷ permission 4 "platform.roles.manage" 1 true
      ∷ permission 5 "platform.permissions.manage" 1 true
      ∷ permission 6 "platform.orgs.manage" 1 true
      ∷ [];
  role_permissions =
      record { role_id = 1; permission_id = 1 }
      ∷ record { role_id = 1; permission_id = 4 }
      ∷ record { role_id = 1; permission_id = 5 }
      ∷ record { role_id = 1; permission_id = 6 }
      ∷ record { role_id = 2; permission_id = 2 }
      ∷ record { role_id = 3; permission_id = 3 }
      ∷ [];
  user_roles =
      record { user_id = 1; role_id = 1 }
      ∷ record { user_id = 2; role_id = 2 }
      ∷ record { user_id = 3; role_id = 3 }
      ∷ [];
  user_permissions = [];
  ba_users =
      record { id = "root"; email = "root@admin"; email_verified = true; two_factor_enabled = true }
      ∷ anna_account
      ∷ record {
        id = "ben";
        email = "ben@north";
        email_verified = false;
        two_factor_enabled = false;
      }
      ∷ [];
  accounts =
      record { user_id = "anna"; provider_id = "credential"; password = some "hash of pass" } ∷ [];
  sessions =
      record { token = "s1"; user_id = "anna" } ∷ record { token = "s2"; user_id = "root" } ∷ [];
  two_factors = record { user_id = "root"; secret = "secret" } ∷ [];
  invitations =
      record {
        id = 1;
        public_id = "i1";
        token = "t1";
        user_id = 3;
        expires_at = 900;
        used_at = none;
      }
      ∷ [];
  consents = [];
  next_app_id = 3;
  next_user_id = 4;
  next_org_id = 4;
  next_role_id = 5;
  next_permission_id = 7;
}

abbrev pub ext : Externals
ext = record { encode = λ i. "new"; name_matches = λ name pattern. true; by_name = λ ps. ps }

abbrev pub sorting : Sorting
sorting = record { sort = λ xs. xs; mem-sort_iff = λ s xs. (λ m. m, λ m. m) }

-- A text format for lists of texts: `s` begins an element, `c` stands before each character.
abbrev put : String → String → String
put String.[] rest = rest
put (String.◌∷◌ c cs) rest = String.◌∷◌ "c" (String.◌∷◌ c (put cs rest))

abbrev pub encode : List String → String
encode [] = String.[]
encode (x ∷ xs) = String.◌∷◌ "s" (put x (encode xs))

-- The text up to the next element, and the elements; `true` after a `c`.
abbrev pub decode : Bool → String → String × List String
decode b String.[] = (String.[], [])
decode true (String.◌∷◌ c cs) = let (here, others) = decode false cs in (String.◌∷◌ c here, others)
decode false (String.◌∷◌ c cs) =
    let inside = decode true cs in
    let (first, others) = decode false cs in
    if code c == b'c' then inside else (String.[], first ∷ others)

decode-put :
    (x rest : String) (ys : List String)
    → decode false rest ≡ (String.[], ys)
    → decode false (put x rest) ≡ (x, ys)
decode-put String.[] rest ys e = e
decode-put (String.◌∷◌ c cs) rest ys e = ap (λ p. (String.◌∷◌ c p.0, p.1)) (decode-put cs rest ys e)

pub decode-encode : (xs : List String) → decode false (encode xs) ≡ (String.[], xs)
decode-encode [] = refl
decode-encode (x ∷ xs) =
    ap (λ p. (String.[], p.0 ∷ p.1)) (decode-put x (encode xs) xs (decode-encode xs))

abbrev pub json : JsonText
json = record {
  parse = λ s. some (array (map str (decode false s).1));
  stringify = encode;
  parse-stringify = λ xs. ap (λ p. some (array (map str p.1))) (decode-encode xs);
}
