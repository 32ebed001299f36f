-- ===== src/Apps/Redirects.antt =====
-- What the check of redirect URIs ensures of the rows that are written.
use sassy_auth.Common.{
  String, true, false, Option, some, List, [], ◌∷◌, map, Memᴰ, ⊤, ◌≡◌, sym, ap, subst, inl, inr,
  arith, ◌===◌, contains, ok, eq_refl, eq_iff, Option-cases, Bool-cases, All,
}
use mathlib.Core.List.Memᴰ
use sassy_auth.RedirectUri.{Url, Kind, login, post_logout, RedirectUri}
use sassy_auth.Apps.Validation.{
  RedirectUriDto, redirect_key, redirect_row, is_http, is_kind, check_redirect_uris,
  assert_valid_redirect_uris,
}

abbrev kind_text : Kind → String
kind_text login = "login"
kind_text post_logout = "post_logout"

-- No row stands twice.
abbrev pub Unrepeated : List RedirectUri → Type 0
Unrepeated [] = ⊤
Unrepeated (r ∷ rs) = (Memᴰ r rs → ⊥) × Unrepeated rs

module _ (parse_url : String → Option Url) where
  -- An absolute URL of the web.
  abbrev pub IsHttp : RedirectUri → Type 0
  IsHttp r = (u : Url) × (parse_url r.uri ≡ some u) × (is_http u ≡ true)

  key_of_row :
      (r : RedirectUriDto)
      → is_kind r.kind ≡ true
      → redirect_key r.uri r.kind ≡ redirect_key r.uri (kind_text (redirect_row r).kind)
  unfolding redirect_row
  key_of_row r h = elim (Bool-cases (r.kind === "login")) [
    | inl e ↦ rw e (ap (redirect_key r.uri) ((eq_iff r.kind "login").0 e))
    | inr e ↦ rw e (ap (redirect_key r.uri) ((eq_iff r.kind "post_logout").0 (ground arith)))
  ]

  -- What a round of the loop has tested.
  round :
      (seen : List String) (r : RedirectUriDto) (rs : List RedirectUriDto)
      → check_redirect_uris parse_url seen (r ∷ rs) ≡ ok tt
      → (u : Url) × (parse_url r.uri ≡ some u)
        × (is_http u ≡ true)
        × (is_kind r.kind ≡ true)
        × (contains seen (redirect_key r.uri r.kind) ≡ false)
        × (check_redirect_uris parse_url (redirect_key r.uri r.kind ∷ seen) rs ≡ ok tt)
  unfolding check_redirect_uris
  round seen r rs h = elim (Option-cases (parse_url r.uri)) [
    | inl bad ↦ ground arith
    | inr (u, parsed) ↦ (u, parsed, ground arith, ground arith, ground arith, ground arith)
  ]

  unseen :
      (seen : List String) (rs : List RedirectUriDto) (x : RedirectUri)
      → check_redirect_uris parse_url seen rs ≡ ok tt
      → Memᴰ x (map redirect_row rs)
      → contains seen (redirect_key x.uri (kind_text x.kind)) ≡ false
  unfolding redirect_row
  unseen seen [] x h m = elim m [ ]
  unseen seen (r ∷ rs) x h m =
      let (u, parsed, http, kind, new, rest) = round seen r rs h in
      elim (Memᴰ.cases_cons m) [
        | inl e ↦
            subst
              (λ (y : RedirectUri). contains seen (redirect_key y.uri (kind_text y.kind)) ≡ false)
              (sym e) (subst (λ k. contains seen k ≡ false) (key_of_row r kind) new)
        | inr k ↦ let later = unseen (redirect_key r.uri r.kind ∷ seen) rs x rest k in ground arith
      ]

  checked_rows :
      (seen : List String) (rs : List RedirectUriDto)
      → check_redirect_uris parse_url seen rs ≡ ok tt
      → All IsHttp (map redirect_row rs) × Unrepeated (map redirect_row rs)
  unfolding redirect_row
  checked_rows seen [] h = (tt, tt)
  checked_rows seen (r ∷ rs) h =
      let (u, parsed, http, kind, new, rest) = round seen r rs h in
      let key = redirect_key r.uri r.kind in
      let (webs, once) = checked_rows (key ∷ seen) rs rest in
      let first : Memᴰ (redirect_row r) (map redirect_row rs) → ⊥ = λ m.
        let later =
          subst (λ k. contains (key ∷ seen) k ≡ false) (sym (key_of_row r kind))
            (unseen (key ∷ seen) rs (redirect_row r) rest m) in
        let same = eq_refl key in ground arith in
      (((u, parsed, http), webs), (first, once))

  -- Where the check passes, every row is an absolute URL of the web, and none stands twice.
  pub redirect_rows_lem :
      (rs : List RedirectUriDto)
      → assert_valid_redirect_uris parse_url rs ≡ ok tt
      → All IsHttp (map redirect_row rs) × Unrepeated (map redirect_row rs)
  unfolding assert_valid_redirect_uris
  redirect_rows_lem rs h = checked_rows [] rs h
