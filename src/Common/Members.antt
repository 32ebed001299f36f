-- ===== src/Common/Members.antt =====
-- What holds of the members of a list that a Boolean function selects.
use Prim.Native.String.{String}
use text.Mathlib.TextEquality.{eq_iff}
use mathlib.Core.Path.{◌≡◌, refl, subst, sym}
use mathlib.Core.Logic.{◌↔◌, ◌⊎◌, inl, inr}
use mathlib.Core.Bool.{Bool, true, false, not}
use mathlib.Core.Option.{Option, none, some}
use mathlib.Core.List.{List, [], ◌∷◌, Memᴰ}
use mathlib.Core.List.Memᴰ
use native.Mathlib.Omega.{arith}
use sassy_auth.Common.Tests.{◌===◌, Bool-cases, Option-cases}
use sassy_auth.Common.Lists.{
  unique, update_where, delete_where, filter, find?, any, flat_map, filter_map, contains,
}

-- Every element of the list has the property.
abbrev pub All {ℓ κ} : {A : Type ℓ} → (A → Type κ) → List A → Type κ
All P [] = Unit
All P (x ∷ xs) = P x × All P xs

module _ {ℓ} {A : Type ℓ} (p : A → Bool) where
  pub any_sound : (xs : List A) → any p xs ≡ true → (x : A) × Memᴰ x xs × (p x ≡ true)
  any_sound [] h = cc
  any_sound (x ∷ xs) h = elim (Bool-cases (p x)) [
    | inl e ↦ (x, Memᴰ.head refl, e)
    | inr e ↦ let (y, m, q) = any_sound xs (rw e at h) in (y, Memᴰ.tail m, q)
  ]

  pub any_complete : (x : A) (xs : List A) → Memᴰ x xs → p x ≡ true → any p xs ≡ true
  any_complete x [] m q = elim m [ ]
  any_complete x (y ∷ ys) (Memᴰ.head e) q = rw (← e, q)
  any_complete x (y ∷ ys) (Memᴰ.tail m) q = ground (arith, any_complete x ys m q)

  pub any_none : (xs : List A) → any p xs ≡ false → (x : A) → Memᴰ x xs → p x ≡ false
  any_none xs h x m = elim (Bool-cases (p x)) [
    | inl e ↦ let t = any_complete x xs m e in cc
    | inr e ↦ e
  ]

  pub find?_sound : (xs : List A) {x : A} → find? p xs ≡ some x → Memᴰ x xs × (p x ≡ true)
  find?_sound [] h = cc
  find?_sound (y ∷ ys) {x} h = elim (Bool-cases (p y)) [
    | inl e ↦ let same : y ≡ x = ground arith in (Memᴰ.head (sym same), rw (← same) e)
    | inr e ↦ let (m, q) = find?_sound ys {x = x} (rw e at h) in (Memᴰ.tail m, q)
  ]

  pub find?-none : (xs : List A) → find? p xs ≡ none → any p xs ≡ false
  find?-none [] h = refl
  find?-none (y ∷ ys) h = ground (arith, find?-none ys)

  pub mem-filter_iff : (x : A) (xs : List A) → Memᴰ x (filter p xs) ↔ (Memᴰ x xs × (p x ≡ true))
  mem-filter_iff x [] = (λ m. elim m [ ], λ h. elim h.0 [ ])
  mem-filter_iff x (y ∷ ys) = elim (Bool-cases (p y)) [
    | inl e ↦ rw e (
      λ m. elim (Memᴰ.cases_cons m) [
        | inl q ↦ (Memᴰ.head q, rw q e)
        | inr m' ↦ let (k, q) = (mem-filter_iff x ys).0 m' in (Memᴰ.tail k, q)
      ],
      λ h. elim (Memᴰ.cases_cons h.0) [
        | inl q ↦ Memᴰ.head q
        | inr m' ↦ Memᴰ.tail ((mem-filter_iff x ys).1 (m', h.1))
      ],
    )
    | inr e ↦ rw e (
      λ m. let (k, q) = (mem-filter_iff x ys).0 m in (Memᴰ.tail k, q),
      λ h. elim (Memᴰ.cases_cons h.0) [
        | inl q ↦ let t : p x ≡ false = rw q e in let u = h.1 in cc
        | inr m' ↦ (mem-filter_iff x ys).1 (m', h.1)
      ],
    )
  ]

module _ {ℓ κ} {A : Type ℓ} {B : Type κ} where
  pub mem-flat_map_iff :
      (f : A → List B) (b : B) (xs : List A)
      → Memᴰ b (flat_map f xs) ↔ ((a : A) × Memᴰ a xs × Memᴰ b (f a))
  mem-flat_map_iff f b [] = (λ m. elim m [ ], λ h. elim h.1 [ ])
  mem-flat_map_iff f b (x ∷ xs) = (
    λ m. elim (Memᴰ.append_cases (f x) m) [
      | inl k ↦ (x, Memᴰ.head refl, k)
      | inr k ↦ let (a, i, j) = (mem-flat_map_iff f b xs).0 k in (a, Memᴰ.tail i, j)
    ],
    λ h. elim (Memᴰ.cases_cons h.1) [
      | inl q ↦ Memᴰ.append_left (flat_map f xs) (subst (λ a. Memᴰ b (f a)) q h.2)
      | inr k ↦ Memᴰ.append_right (f x) ((mem-flat_map_iff f b xs).1 (h.0, k, h.2))
    ],
  )

  pub mem-filter_map_iff :
      (f : A → Option B) (b : B) (xs : List A)
      → Memᴰ b (filter_map f xs) ↔ ((a : A) × Memᴰ a xs × (f a ≡ some b))
  mem-filter_map_iff f b [] = (λ m. elim m [ ], λ h. elim h.1 [ ])
  mem-filter_map_iff f b (x ∷ xs) = elim (Option-cases (f x)) [
    | inl e ↦ rw e (
      λ m. let (a, i, j) = (mem-filter_map_iff f b xs).0 m in (a, Memᴰ.tail i, j),
      λ h. elim (Memᴰ.cases_cons h.1) [
        | inl q ↦ let t : f h.0 ≡ none = rw q e in let u = h.2 in cc
        | inr k ↦ (mem-filter_map_iff f b xs).1 (h.0, k, h.2)
      ],
    )
    | inr (y, e) ↦ rw e (
      λ m. elim (Memᴰ.cases_cons m) [
        | inl q ↦ (x, Memᴰ.head refl, rw q e)
        | inr k ↦ let (a, i, j) = (mem-filter_map_iff f b xs).0 k in (a, Memᴰ.tail i, j)
      ],
      λ h. elim (Memᴰ.cases_cons h.1) [
        | inl q ↦ let t : f h.0 ≡ some y = rw q e in let u = h.2 in Memᴰ.head cc
        | inr k ↦ Memᴰ.tail ((mem-filter_map_iff f b xs).1 (h.0, k, h.2))
      ],
    )
  ]

pub contains_iff : (xs : List String) (s : String) → (contains xs s ≡ true) ↔ Memᴰ s xs
contains_iff xs s = (
  λ h. let (x, m, e) = any_sound (λ x. x === s) xs h in subst (λ t. Memᴰ t xs) ((eq_iff x s).0 e) m,
  λ m. any_complete (λ x. x === s) s xs m ((eq_iff s s).1 refl),
)

pub mem-unique_iff : (s : String) (xs : List String) → Memᴰ s (unique xs) ↔ Memᴰ s xs
mem-unique_iff s [] = (λ m. m, λ m. m)
mem-unique_iff s (x ∷ xs) =
    let kept = mem-filter_iff (λ y. not (y === x)) s (unique xs) in
    (
      λ m. elim (Memᴰ.cases_cons m) [
        | inl q ↦ Memᴰ.head q
        | inr k ↦ Memᴰ.tail ((mem-unique_iff s xs).0 (kept.0 k).0)
      ],
      λ m. elim (Memᴰ.cases_cons m) [
        | inl q ↦ Memᴰ.head q
        | inr k ↦ elim (Bool-cases (s === x)) [
          | inl same ↦ Memᴰ.head ((eq_iff s x).0 same)
          | inr other ↦ Memᴰ.tail (kept.1 ((mem-unique_iff s xs).1 k, ground arith))
        ]
      ],
    )

module _ {ℓ} {A : Type ℓ} (selected : A → Bool) where
  -- A row after an update is a row that was selected, changed, or one that was left alone.
  pub mem-update_where :
      (f : A → A) (y : A) (xs : List A)
      → Memᴰ y (update_where selected f xs)
      → (x : A) × Memᴰ x xs × (((selected x ≡ true) × (y ≡ f x)) ⊎ ((selected x ≡ false) × (y ≡ x)))
  mem-update_where f y [] m = elim m [ ]
  mem-update_where f y (x ∷ xs) m = elim (Memᴰ.cases_cons m) [
    | inl e ↦ elim (Bool-cases (selected x)) [
      | inl s ↦ (x, Memᴰ.head refl, inl (s, rw s at e))
      | inr s ↦ (x, Memᴰ.head refl, inr (s, rw s at e))
    ]
    | inr k ↦ let (z, j, changed) = mem-update_where f y xs k in (z, Memᴰ.tail j, changed)
  ]

  pub mem-delete_where : (x : A) (xs : List A) → Memᴰ x (delete_where selected xs) → Memᴰ x xs
  mem-delete_where x xs m = ((mem-filter_iff (λ y. not (selected y)) x xs).0 m).0
