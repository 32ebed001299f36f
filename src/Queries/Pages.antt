-- ===== src/Queries/Pages.antt =====
-- What a page of a list may hold.
use sassy_auth.Common.{
  ℕ, zero, suc, ◌-◌, ◌*◌, Bool, true, List, [], ◌∷◌, Memᴰ, ◌≡◌, inl, inr, take, drop,
  mem-filter_iff, leb, Bool-cases,
}
use mathlib.Core.List.Memᴰ
use sassy_auth.Queries.{insert_desc, sort_desc, rows_of_page}

module _ {A : Type 0} where
  mem-take : (n : ℕ) (x : A) (xs : List A) → Memᴰ x (take n xs) → Memᴰ x xs
  mem-take zero x xs m = elim m [ ]
  mem-take (suc n) x [] m = m
  mem-take (suc n) x (y ∷ ys) (Memᴰ.head e) = Memᴰ.head e
  mem-take (suc n) x (y ∷ ys) (Memᴰ.tail m) = Memᴰ.tail (mem-take n x ys m)

  mem-drop : (n : ℕ) (x : A) (xs : List A) → Memᴰ x (drop n xs) → Memᴰ x xs
  mem-drop zero x xs m = m
  mem-drop (suc n) x [] m = m
  mem-drop (suc n) x (y ∷ ys) m = Memᴰ.tail (mem-drop n x ys m)

  mem-insert_desc :
      (id : A → ℕ) (x y : A) (ys : List A) → Memᴰ x (insert_desc id y ys) → Memᴰ x (y ∷ ys)
  unfolding insert_desc
  mem-insert_desc id x y [] m = m
  mem-insert_desc id x y (z ∷ zs) m = elim (Bool-cases (leb (id z) (id y))) [
    | inl e ↦ rw e at m
    | inr e ↦ elim (Memᴰ.cases_cons (rw e at m)) [
      | inl q ↦ Memᴰ.tail (Memᴰ.head q)
      | inr k ↦ elim (Memᴰ.cases_cons (mem-insert_desc id x y zs k)) [
        | inl q ↦ Memᴰ.head q
        | inr j ↦ Memᴰ.tail (Memᴰ.tail j)
      ]
    ]
  ]

  mem-sort_desc : (id : A → ℕ) (x : A) (xs : List A) → Memᴰ x (sort_desc id xs) → Memᴰ x xs
  unfolding sort_desc
  mem-sort_desc id x [] m = m
  mem-sort_desc id x (y ∷ ys) m =
      elim (Memᴰ.cases_cons (mem-insert_desc id x y (sort_desc id ys) m)) [
        | inl q ↦ Memᴰ.head q
        | inr k ↦ Memᴰ.tail (mem-sort_desc id x ys k)
      ]

  -- Whatever the page, its rows are rows of the table that the `where` clause selects.
  pub mem-rows_of_page :
      (id : A → ℕ) (selected : A → Bool) (page size : ℕ) (rows : List A) (x : A)
      → Memᴰ x (rows_of_page id selected page size rows)
      → Memᴰ x rows × (selected x ≡ true)
  unfolding rows_of_page
  mem-rows_of_page id selected page size rows x m =
      (mem-filter_iff selected x rows).0
        (mem-sort_desc id x _ (mem-drop ((page - 1) * size) x _ (mem-take size x _ m)))
