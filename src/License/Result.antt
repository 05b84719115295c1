-- ===== src/License/Result.antt =====
-- The outcome of a parse of backend/internal/license/expression.go, and postconditions on it.
use bomhort.Base.{◌≡◌, ◌≢◌, subst}

pub data ParseError : Type 0 where
  empty_expression unexpected_token unexpected_end unexpected_operator missing_paren : ParseError
  with_needs_exception with_after_compound : ParseError

-- A value, an error of the program, or a model that ran out of its bound.
pub data Result {ℓ} (A : Type ℓ) : Type ℓ where
  ok : A → Result A
  err : ParseError → Result A
  out_of_fuel : Result A

infixl 5 ◌>>=◌
abbrev pub ◌>>=◌ {ℓ κ} : {A : Type ℓ} {B : Type κ} → Result A → (A → Result B) → Result B
ok a >>= f = f a
err e >>= f = err e
out_of_fuel >>= f = out_of_fuel

-- The result is a value that satisfies `P`, or an error.
pub data Yields {ℓ κ} {A : Type ℓ} (P : A → Type κ) : Result A → Type (ℓ ⊔ κ) where
  yields : {a : A} → P a → Yields P (ok a)
  refuses : {why : ParseError} → Yields P (err why)

pub Yields-ok {ℓ κ} :
    {A : Type ℓ} {P : A → Type κ} {a : A} {outcome : Result A}
    → Yields P outcome
    → outcome ≡ ok a
    → P a
Yields-ok {P} (yields p) same = subst P (cc) p
Yields-ok refuses same = cc

pub Yields-ne-out_of_fuel {ℓ κ} :
    {A : Type ℓ} {P : A → Type κ} {outcome : Result A} → Yields P outcome → outcome ≢ out_of_fuel
Yields-ne-out_of_fuel (yields p) same = cc
Yields-ne-out_of_fuel refuses same = cc

-- A do block yields what its last step yields.
pub Yields-bind {ℓ κ μ ν} :
    {A : Type ℓ} {B : Type κ} {first : Result A} {next : A → Result B} {P : A → Type μ}
    {Q : B → Type ν}
    → Yields P first
    → ((a : A) → P a → Yields Q (next a))
    → Yields Q (first >>= next)
Yields-bind refuses step = refuses
Yields-bind (yields {a} p) step = step a p
