-- ===== src/Common/Lists.antt =====
-- Lists tested by Boolean functions, as the source's array methods and queries test them.
use Prim.Native.Nat.{ℕ, zero, suc}
use Prim.Native.String.{String}
use mathlib.Core.Bool.{Bool, true, false, ◌&&◌, ◌||◌, not}
use mathlib.Core.Option.{Option, none, some}
use mathlib.Core.List.{List, [], ◌∷◌, ◌++◌}
use sassy_auth.Common.Tests.{if◌then◌else◌, ◌==◌, ◌===◌}

module _ {ℓ} {A : Type ℓ} where
  abbrev pub length : List A → ℕ
  length [] = 0
  length (x ∷ xs) = suc (length xs)

  -- The rows that a `where` clause selects.
  abbrev pub filter : (A → Bool) → List A → List A
  filter p [] = []
  filter p (x ∷ xs) = let rest = filter p xs in if p x then x ∷ rest else rest

  -- `findUnique` and `findFirst`: the first row that a `where` clause selects.
  abbrev pub find? : (A → Bool) → List A → Option A
  find? p [] = none
  find? p (x ∷ xs) = let rest = find? p xs in if p x then some x else rest

  abbrev pub any : (A → Bool) → List A → Bool
  any p [] = false
  any p (x ∷ xs) = p x || any p xs

  abbrev pub all : (A → Bool) → List A → Bool
  all p [] = true
  all p (x ∷ xs) = p x && all p xs

  -- `updateMany`: each row that the clause selects is changed.
  abbrev pub update_where : (A → Bool) → (A → A) → List A → List A
  update_where p f [] = []
  update_where p f (x ∷ xs) = (if p x then f x else x) ∷ update_where p f xs

  -- `deleteMany`: the rows that the clause does not select stay.
  abbrev pub delete_where : (A → Bool) → List A → List A
  delete_where p xs = filter (λ x. not (p x)) xs

  abbrev pub count_where : (A → Bool) → List A → ℕ
  count_where p xs = length (filter p xs)

  abbrev pub take : ℕ → List A → List A
  take zero xs = []
  take (suc n) [] = []
  take (suc n) (x ∷ xs) = x ∷ take n xs

  abbrev pub drop : ℕ → List A → List A
  drop zero xs = xs
  drop (suc n) [] = []
  drop (suc n) (x ∷ xs) = drop n xs

abbrev pub prepend {ℓ} : {B : Type ℓ} → Option B → List B → List B
prepend none ys = ys
prepend (some y) ys = y ∷ ys

module _ {ℓ κ} {A : Type ℓ} {B : Type κ} where
  abbrev pub flat_map : (A → List B) → List A → List B
  flat_map f [] = []
  flat_map f (x ∷ xs) = f x ++ flat_map f xs

  abbrev pub filter_map : (A → Option B) → List A → List B
  filter_map f [] = []
  filter_map f (x ∷ xs) = prepend (f x) (filter_map f xs)

abbrev pub contains : List String → String → Bool
contains xs s = any (λ x. x === s) xs

abbrev pub contains_number : List ℕ → ℕ → Bool
contains_number xs n = any (λ x. x == n) xs

-- `Array.from(new Set(xs))`: the first of equal texts stays.
abbrev pub unique : List String → List String
unique [] = []
unique (x ∷ xs) = x ∷ filter (λ y. not (y === x)) (unique xs)
