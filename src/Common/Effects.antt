-- ===== src/Common/Effects.antt =====
-- A request handler: the state that it leaves, and a value or the exception that it throws. What
-- was written before a `throw` stays written; a database transaction is all or nothing.
use Prim.Native.Nat.{ℕ}
use Prim.Native.String.{String}
use mathlib.Core.Path.{◌≡◌, refl, subst}
use mathlib.Core.Logic.{◌⊎◌, inl, inr}
use mathlib.Core.Bool.{Bool, true, false}
use mathlib.Core.Option.{Option, none, some}
use mathlib.Core.List.{List}
use native.Mathlib.Omega.{arith}
use sassy_auth.Common.Tests.{⊤}

-- The text of an exception, with the values that a template literal puts in.
pub data Message : Type 0 where
  bare : Message
  plain : String → Message
  with_counts : String → List ℕ → Message
  with_names : String → List String → Message

-- The codes of `PrismaClientKnownRequestError` that the source names: unique constraint failed,
-- foreign key constraint failed, record not found.
pub data PrismaCode : Type 0 where
  p2002 p2003 p2025 : PrismaCode

-- The exceptions of @nestjs/common, a Prisma error that a handler rethrows, an APIError of
-- BetterAuth with its `status` and `body.code`, and the error of a URL that does not parse.
pub data Exception : Type 0 where
  bad_request unauthorized forbidden not_found conflict unprocessable : Message → Exception
  prisma_error : PrismaCode → Exception
  api_error : String → String → Exception
  type_error : Exception

pub data Result (A : Type 0) : Type 0 where
  ok : A → Result A
  err : Exception → Result A

abbrev pub Action : Type 0 → Type 0 → Type 0
Action S A = S → Result A × S

infixl 5 ◌>>=◌ ◌>>◌
abbrev pub ◌>>=◌ : {S A B : Type 0} → Action S A → (A → Action S B) → Action S B
◌>>=◌ m f s = let (r, s') = m s in elim r [ ok a ↦ f a s' | err e ↦ (err e, s') ]

abbrev pub ◌>>◌ : {S B : Type 0} → Action S ⊤ → Action S B → Action S B
m >> k = m >>= λ _. k

module _ {S A : Type 0} where
  abbrev pub pure : A → Action S A
  pure a s = (ok a, s)

  abbrev pub throw : Exception → Action S A
  throw e s = (err e, s)

  abbrev pub gets : (S → A) → Action S A
  gets f s = (ok (f s), s)

  -- `if (!row) throw …`
  abbrev pub or_throw : Option A → Exception → Action S A
  or_throw none e s = (err e, s)
  or_throw (some a) e s = (ok a, s)

  -- A database call: it commits and answers, or it throws and changes nothing.
  abbrev pub commit : (S → Result (A × S)) → Action S A
  commit q s = elim (q s) [ ok (a, s') ↦ (ok a, s') | err e ↦ (err e, s) ]

  abbrev pub try_catch : Action S A → (Exception → Action S A) → Action S A
  try_catch m handler s = let (r, s') = m s in elim r [ ok a ↦ (ok a, s') | err e ↦ handler e s' ]

abbrev pub modify : {S : Type 0} → (S → S) → Action S ⊤
modify f s = (ok tt, f s)

-- `if (c) throw …`
abbrev pub throw_if : {S : Type 0} → Bool → Exception → Action S ⊤
throw_if true e s = (err e, s)
throw_if false e s = (ok tt, s)

abbrev pub same_code : PrismaCode → PrismaCode → Bool
same_code p2002 p2002 = true
same_code p2003 p2003 = true
same_code p2025 p2025 = true
same_code _ _ = false

-- `isPrismaCode(e, code)`
abbrev pub is_prisma_code : Exception → PrismaCode → Bool
is_prisma_code (prisma_error c) code = same_code c code
is_prisma_code _ code = false

pub Result-cases :
    {A : Type 0} (r : Result A) → ((a : A) × (r ≡ ok a)) ⊎ ((e : Exception) × (r ≡ err e))
Result-cases (ok a) = inl (a, refl)
Result-cases (err e) = inr (e, refl)

-- The inversion of a chain: where the whole answers a value, each step did.
module _ {S A : Type 0} where
  pub >>=-eq-ok :
      {B : Type 0} (m : Action S A) (f : A → Action S B) (s s'' : S) (b : B)
      → (m >>= f) s ≡ (ok b, s'')
      → (a : A) × (s' : S) × (m s ≡ (ok a, s')) × (f a s' ≡ (ok b, s''))
  >>=-eq-ok m f s s'' b h = elim (Result-cases (m s).0) [
    | inl (a, e) ↦ (a, (m s).1, ground arith, ground arith)
    | inr (x, e) ↦ ground arith
  ]

  pub or_throw-eq-ok :
      (o : Option A) (x : Exception) (s s' : S) (a : A)
      → or_throw o x s ≡ (ok a, s')
      → (o ≡ some a) × (s ≡ s')
  or_throw-eq-ok none x s s' a h = ground arith
  or_throw-eq-ok (some b) x s s' a h = ground arith

pub throw_if-eq-ok :
    {S : Type 0} (b : Bool) (x : Exception) (s s' : S) (u : ⊤)
    → throw_if b x s ≡ (ok u, s')
    → (b ≡ false) × (s ≡ s')
throw_if-eq-ok true x s s' u h = ground arith
throw_if-eq-ok false x s s' u h = ground arith

-- The property holds after a chain where it holds after each of its parts.
pub bind_after :
    {S A B : Type 0} (P : S → Type 0) (m : Action S A) (f : A → Action S B) (s : S)
    → P (m s).1
    → ((a : A) (t : S) → m s ≡ (ok a, t) → P t → P (f a t).1)
    → P ((m >>= f) s).1
bind_after P m f s h step = elim (Result-cases (m s).0) [
  | inl (a, e) ↦ subst P (ground arith) (step a (m s).1 (ground arith) h)
  | inr (x, e) ↦ subst P (ground arith) h
]

pub caught_after :
    {S A : Type 0} (P : S → Type 0) (m : Action S A) (handler : Exception → Action S A) (s : S)
    → P (m s).1
    → ((e : Exception) (t : S) → m s ≡ (err e, t) → P t → P (handler e t).1)
    → P (try_catch m handler s).1
caught_after P m handler s h step = elim (Result-cases (m s).0) [
  | inl (a, e) ↦ subst P (ground arith) h
  | inr (x, e) ↦ subst P (ground arith) (step x (m s).1 (ground arith) h)
]

module _ {S : Type 0} {A B : Type 0} where
  -- A reading continuation leaves the state of the first part.
  pub bind-reads :
      (m : Action S A) (f : A → Action S B) (s : S)
      → ((a : A) (t : S) → (f a t).1 ≡ t)
      → ((m >>= f) s).1 ≡ (m s).1
  bind-reads m f s reads = elim (Result-cases (m s).0) [
    | inl (a, e) ↦ ground (arith, reads a (m s).1)
    | inr (x, e) ↦ ground arith
  ]
