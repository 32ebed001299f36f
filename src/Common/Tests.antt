-- ===== src/Common/Tests.antt =====
-- Boolean tests on native numbers and texts, and the conditional.
use Prim.Native.Nat.{ℕ, ◌≤◌, ◌<◌, compare, Ordering}
use Prim.Native.String.{String}
use mathlib.Core.Path.{◌≡◌, refl}
use mathlib.Core.Logic.{◌↔◌, ◌⊎◌, inl, inr}
use mathlib.Core.Bool.{Bool, true, false}
use mathlib.Core.Option.{Option, none, some}
use native.Mathlib.Omega.{arith}
use text.Mathlib.Text.{◌==◌ as same_text}

-- The type with one element, at the lowest level.
abbrev pub ⊤ : Type 0
⊤ = Unit

abbrev pub ltb : ℕ → ℕ → Bool
ltb a b = elim (compare a b) [ Ordering.lt ↦ true | _ ↦ false ]

abbrev pub leb : ℕ → ℕ → Bool
leb a b = elim (compare a b) [ Ordering.gt ↦ false | _ ↦ true ]

infix 50 ◌==◌
abbrev pub ◌==◌ : ℕ → ℕ → Bool
a == b = elim (compare a b) [ Ordering.eq ↦ true | _ ↦ false ]

-- `===` on two texts.
infix 50 ◌===◌
abbrev pub ◌===◌ : String → String → Bool
s === t = same_text s t

infix 1 if◌then◌else◌
abbrev pub if◌then◌else◌ {ℓ} : {A : Type ℓ} → Bool → A → A → A
if true then x else y = x
if false then x else y = y

pub ltb→lt : (a b : ℕ) → ltb a b ≡ true → a < b
ltb→lt a b h = ground arith

pub lt→ltb : (a b : ℕ) → a < b → ltb a b ≡ true
lt→ltb a b h = ground arith

pub leb→le : (a b : ℕ) → leb a b ≡ true → a ≤ b
leb→le a b h = ground arith

pub ==_iff : (a b : ℕ) → ((a == b) ≡ true) ↔ (a ≡ b)
==_iff a b = ground arith

-- To split on a computed value and keep the equation.
pub Bool-cases : (b : Bool) → (b ≡ true) ⊎ (b ≡ false)
Bool-cases true = inl refl
Bool-cases false = inr refl

pub Option-cases {ℓ} : {A : Type ℓ} (o : Option A) → (o ≡ none) ⊎ ((a : A) × (o ≡ some a))
Option-cases none = inl refl
Option-cases (some a) = inr (a, refl)

module _ {ℓ} {A : Type ℓ} where
  -- `o != null`
  abbrev pub is_some : Option A → Bool
  is_some none = false
  is_some (some _) = true

  -- `o ?? d`
  abbrev pub get_or : Option A → A → A
  get_or none d = d
  get_or (some a) _ = a

-- `o === some s`, where `null` is no text.
abbrev pub is_text : Option String → String → Bool
is_text none s = false
is_text (some t) s = t === s

abbrev pub is_number : Option ℕ → ℕ → Bool
is_number none n = false
is_number (some m) n = m == n

-- A number of the source that may be -1: `negsuc n` is -(n + 1).
pub data ℤ : Type 0 where
  pos : ℕ → ℤ
  negsuc : ℕ → ℤ

-- `o === n`, for a target that may be undefined or the sentinel -1.
abbrev pub is_target : Option ℤ → ℕ → Bool
is_target none n = false
is_target (some (pos m)) n = n == m
is_target (some (negsuc _)) n = false

pub is_target_iff : (t : Option ℤ) (n : ℕ) → (is_target t n ≡ true) ↔ (t ≡ some (pos n))
is_target_iff none n = ground arith
is_target_iff (some (pos m)) n = ground arith
is_target_iff (some (negsuc m)) n = ground arith

-- `if (s)`, for a text that may be null or undefined: the empty text is falsy too.
abbrev pub is_truthy : Option String → Bool
is_truthy none = false
is_truthy (some s) = if s === "" then false else true
