-- ===== src/Queries/Keys.antt =====
-- Rows with an id: what an update or a deletion by id leaves of the rows that a clause keeps.
use sassy_auth.Common.{
  ℕ, Bool, true, false, not, ◌&&◌, ◌||◌, some, List, [], ◌∷◌, Memᴰ, ◌≡◌, refl, sym, inl, inr, arith,
  ◌==◌, find?, filter, any, update_where, delete_where, any_sound, any_complete, find?_sound,
  Bool-cases, ◌≤◌, if◌then◌else◌, count_where, subst,
}
use mathlib.Core.List.Memᴰ

module _ {A : Type 0} where
  -- No two rows have the same id: it is the primary key.
  abbrev pub distinct : (A → ℕ) → List A → Bool
  distinct id [] = true
  distinct id (x ∷ xs) = not (any (λ y. id y == id x) xs) && distinct id xs

  pub same_row :
      (id : A → ℕ) (xs : List A) (x y : A)
      → distinct id xs ≡ true
      → Memᴰ x xs
      → Memᴰ y xs
      → id y ≡ id x
      → y ≡ x
  same_row id [] x y d m k e = elim m [ ]
  same_row id (z ∷ zs) x y d m k e = elim (Memᴰ.cases_cons m) [
    | inl p ↦ elim (Memᴰ.cases_cons k) [
      | inl q ↦ cc
      | inr k' ↦
          let here : id y ≡ id z = rw (← p) e in
          let t = any_complete (λ w. id w == id z) y zs k' (ground arith) in ground arith
    ]
    | inr m' ↦ elim (Memᴰ.cases_cons k) [
      | inl q ↦
          let here : id x ≡ id z = rw (← q) (sym e) in
          let t = any_complete (λ w. id w == id z) x zs m' (ground arith) in ground arith
      | inr k' ↦ same_row id zs x y (ground arith) m' k' e
    ]
  ]

  -- The row that a query found is the only one of its id.
  pub only_found :
      (id : A → ℕ) (q keep : A → Bool) (xs : List A) (x : A)
      → distinct id xs ≡ true
      → find? q xs ≡ some x
      → keep x ≡ false
      → any (λ y. id y == id x && keep y) xs ≡ false
  only_found id q keep xs x d found dropped =
      elim (Bool-cases (any (λ y. id y == id x && keep y) xs)) [
        | inr unhit ↦ unhit
        | inl hit ↦
            let (y, m, e) = any_sound _ xs hit in
            let same : y ≡ x = same_row id xs x y d (find?_sound q xs found).0 m (ground arith) in
            let kept : keep y ≡ false = rw same dropped in ground arith
      ]

  pub filter-update_where :
      (selected keep : A → Bool) (f : A → A) (xs : List A)
      → any (λ x. selected x && (keep x || keep (f x))) xs ≡ false
      → filter keep (update_where selected f xs) ≡ filter keep xs
  filter-update_where selected keep f [] h = refl
  filter-update_where selected keep f (x ∷ xs) h =
      ground (arith, filter-update_where selected keep f xs)

  pub filter-delete_where :
      (selected keep : A → Bool) (xs : List A)
      → any (λ x. selected x && keep x) xs ≡ false
      → filter keep (delete_where selected xs) ≡ filter keep xs
  filter-delete_where selected keep [] h = refl
  filter-delete_where selected keep (x ∷ xs) h =
      ground (arith, filter-delete_where selected keep xs)

  -- A query that an update does not change finds the updated row.
  pub find-update_where :
      (p : A → Bool) (f : A → A) (xs : List A) (x : A)
      → ((y : A) → p (f y) ≡ p y)
      → find? p xs ≡ some x
      → find? p (update_where p f xs) ≡ some (f x)
  find-update_where p f [] x keep e = cc
  find-update_where p f (y ∷ ys) x keep e =
      let kept = keep y in ground (arith, find-update_where p f ys x keep)

  -- The same where the query and the update select different rows.
  pub find-update_other :
      (q p : A → Bool) (f : A → A) (xs : List A) (x : A)
      → ((y : A) → q (f y) ≡ q y)
      → find? q xs ≡ some x
      → find? q (update_where p f xs) ≡ some (if p x then f x else x)
  find-update_other q p f [] x keep e = cc
  find-update_other q p f (y ∷ ys) x keep e =
      let kept = keep y in ground (arith, find-update_other q p f ys x keep)

  -- Where a selection of rows of one id is not empty, the row of that id is in it.
  pub only_selected :
      (id : A → ℕ) (p : A → Bool) (xs : List A) (x : A)
      → distinct id xs ≡ true
      → Memᴰ x xs
      → ((y : A) → p y ≡ true → id y ≡ id x)
      → any p xs ≡ true
      → p x ≡ true
  only_selected id p xs x unique m of_id h =
      let (y, k, e) = any_sound p xs h in
      subst (λ z. p z ≡ true) (same_row id xs x y unique m k (of_id y e)) e

  pub any-of_count : (p : A → Bool) (xs : List A) → 1 ≤ count_where p xs → any p xs ≡ true
  any-of_count p [] h = absurd (omega arith)
  any-of_count p (x ∷ xs) h = ground (arith, any-of_count p xs)

  any_id-update_where :
      (id : A → ℕ) (selected : A → Bool) (f : A → A) (n : ℕ) (xs : List A)
      → ((x : A) → id (f x) ≡ id x)
      → any (λ y. id y == n) (update_where selected f xs) ≡ any (λ y. id y == n) xs
  any_id-update_where id selected f n [] same = refl
  any_id-update_where id selected f n (x ∷ xs) same =
      ground (arith, same x, any_id-update_where id selected f n xs same)

  -- An update of other columns leaves the keys distinct.
  pub distinct-update_where :
      (id : A → ℕ) (selected : A → Bool) (f : A → A) (xs : List A)
      → ((x : A) → id (f x) ≡ id x)
      → distinct id xs ≡ true
      → distinct id (update_where selected f xs) ≡ true
  distinct-update_where id selected f [] same d = refl
  distinct-update_where id selected f (x ∷ xs) same d =
      let rest = distinct-update_where id selected f xs same (ground arith) in
      let here = any_id-update_where id selected f (id x) xs same in
      let there = any_id-update_where id selected f (id (f x)) xs same in ground (arith, same x)

  any_id-delete_where :
      (id : A → ℕ) (selected : A → Bool) (n : ℕ) (xs : List A)
      → any (λ y. id y == n) xs ≡ false
      → any (λ y. id y == n) (delete_where selected xs) ≡ false
  any_id-delete_where id selected n [] h = refl
  any_id-delete_where id selected n (x ∷ xs) h =
      ground (arith, any_id-delete_where id selected n xs)

  pub distinct-delete_where :
      (id : A → ℕ) (selected : A → Bool) (xs : List A)
      → distinct id xs ≡ true
      → distinct id (delete_where selected xs) ≡ true
  distinct-delete_where id selected [] d = refl
  distinct-delete_where id selected (x ∷ xs) d =
      let rest = distinct-delete_where id selected xs (ground arith) in
      ground (arith, any_id-delete_where id selected (id x) xs)
