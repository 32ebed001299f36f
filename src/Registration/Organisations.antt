-- ===== src/Registration/Organisations.antt =====
-- The organisation that a registration joins or adds.
use sassy_auth.Common.{
  ℕ, String, Bool, false, ◌||◌, ◌&&◌, [], ◌==◌, ==_iff, update_where, Option, none, some, List, ◌∷◌,
  ◌≡◌, inl, inr, refl, ◌∙◌, subst, arith, ok, Result-cases, any, ◌===◌,
}
use sassy_auth.Db.{SaApp, SaOrg, Db}
use sassy_auth.Queries.{Externals}
use sassy_auth.Queries.Tables.{ok-of_both, insert_org, update_org_row}
use sassy_auth.Registration.Rows.{new_org, create_org, place}

-- The organisation is the default one, or the row that was written for the company.
abbrev pub OrgPlaced : Externals → SaApp → Option String → Db → Option SaOrg → SaOrg → Type 0
OrgPlaced ext app company db (some o) org = org ≡ o
OrgPlaced ext app company db none org =
    org ≡ new_org app company (ext.encode db.next_org_id) db.next_org_id

-- The organisations afterwards: the one of a company is added.
abbrev pub OrgsAfter : Db → Option SaOrg → SaOrg → Db → Type 0
OrgsAfter db (some o) org db' = db'.orgs ≡ db.orgs
OrgsAfter db none org db' = db'.orgs ≡ org ∷ db.orgs

-- The tables that the first write of the transaction leaves alone.
abbrev pub SameRest : Db → Db → Type 0
SameRest db mid =
    (mid.users ≡ db.users)
    × (mid.user_roles ≡ db.user_roles)
    × (mid.consents ≡ db.consents)
    × (mid.ba_users ≡ db.ba_users)
    × (mid.next_user_id ≡ db.next_user_id)

insert_org-SameRest :
    (row : SaOrg) (db db' : Db) → insert_org row db ≡ ok (tt, db') → SameRest db db'
unfolding insert_org
insert_org-SameRest row db db' h = ground arith

update_org_row-SameRest :
    (i : ℕ) (f : SaOrg → SaOrg) (db db' : Db)
    → update_org_row i f db ≡ ok (tt, db')
    → SameRest db db'
unfolding update_org_row
update_org_row-SameRest i f db db' h = ground arith

create_org-SameRest :
    (ext : Externals) (app : SaApp) (company : Option String) (pending : String) (db db' : Db)
    → create_org ext app company pending db ≡ ok (tt, db')
    → SameRest db db'
unfolding create_org
create_org-SameRest ext app company pending db db' h =
    let i = db.next_org_id in
    let (mid, first, second) =
      ok-of_both (insert_org (new_org app company pending i))
        (update_org_row i (λ o. record o { public_id = ext.encode i })) db db' h in
    let a = insert_org-SameRest (new_org app company pending i) db mid first in
    let b = update_org_row-SameRest i (λ o. record o { public_id = ext.encode i }) mid db' second in
    (b.0 ∙ a.0, b.1 ∙ a.1, b.2 ∙ a.2, b.3 ∙ a.3, b.4 ∙ a.4)

update_where-of_none :
    {A : Type 0} (p : A → Bool) (f : A → A) (xs : List A)
    → any p xs ≡ false
    → update_where p f xs ≡ xs
update_where-of_none p f [] h = refl
update_where-of_none p f (x ∷ xs) h = ground (arith, update_where-of_none p f xs)

fewer :
    {A : Type 0} (xs : List A) (a b c : A → Bool)
    → any (λ x. a x || b x || c x) xs ≡ false
    → any a xs ≡ false
fewer [] a b c h = refl
fewer (x ∷ xs) a b c h = ground (arith, fewer xs a b c)

insert_org-orgs :
    (row : SaOrg) (db db' : Db)
    → insert_org row db ≡ ok (tt, db')
    → (db'.orgs ≡ row ∷ db.orgs) × (any (λ o. o.id == row.id) db.orgs ≡ false)
unfolding insert_org
insert_org-orgs row db db' h = (
  ground arith,
  fewer db.orgs (λ o. o.id == row.id) (λ o. o.public_id === row.public_id)
      (λ o. o.app_id == row.app_id && o.name === row.name) (ground arith),
)

update_org_row-orgs :
    (i : ℕ) (f : SaOrg → SaOrg) (db db' : Db)
    → update_org_row i f db ≡ ok (tt, db')
    → db'.orgs ≡ update_where (λ o. o.id == i) f db.orgs
unfolding update_org_row
update_org_row-orgs i f db db' h = ground arith

-- The organisation of a company is added, with the public id of its id.
create_org-orgs :
    (ext : Externals) (app : SaApp) (company : Option String) (pending : String) (db db' : Db)
    → create_org ext app company pending db ≡ ok (tt, db')
    → db'.orgs ≡ new_org app company (ext.encode db.next_org_id) db.next_org_id ∷ db.orgs
unfolding create_org
create_org-orgs ext app company pending db db' h =
    let i = db.next_org_id in
    let named = λ (o : SaOrg). record o { public_id = ext.encode i } in
    let (mid, first, second) =
      ok-of_both (insert_org (new_org app company pending i)) (update_org_row i named) db db' h in
    let (added, new) = insert_org-orgs (new_org app company pending i) db mid first in
    let changed = update_org_row-orgs i named mid db' second in
    let others = update_where-of_none (λ (o : SaOrg). o.id == i) named db.orgs new in
    let whole : db'.orgs
        ≡ update_where (λ o. o.id == i) named (new_org app company pending i ∷ db.orgs) =
      subst (λ os. db'.orgs ≡ update_where (λ o. o.id == i) named os) added changed in
    ground (arith, ==_iff i i)

pub place_lem :
    (ext : Externals) (app : SaApp) (company : Option String) (pending : String)
    (default : Option SaOrg) (db mid : Db) (org : SaOrg)
    → place ext app company pending default db ≡ ok (org, mid)
    → OrgPlaced ext app company db default org × SameRest db mid × OrgsAfter db default org mid
unfolding place
place_lem ext app company pending (some o) db mid org h = (
  ground arith,
  (ground arith, ground arith, ground arith, ground arith, ground arith),
  ground arith,
)
place_lem ext app company pending none db mid org h =
    elim (Result-cases (create_org ext app company pending db)) [
      | inr (e, failed) ↦ ground arith
      | inl ((u, db'), done) ↦
          let same : db' ≡ mid = ground arith in
          (
            ground arith,
            subst (SameRest db) same (create_org-SameRest ext app company pending db db' done),
            (let added = create_org-orgs ext app company pending db db' done in ground arith),
          )
    ]

pub orgs_after :
    (db mid end : Db) (default : Option SaOrg) (org : SaOrg)
    → end.orgs ≡ mid.orgs
    → OrgsAfter db default org mid
    → OrgsAfter db default org end
orgs_after db mid end (some o) org kept orgs = kept ∙ orgs
orgs_after db mid end none org kept orgs = kept ∙ orgs
