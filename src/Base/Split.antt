-- ===== src/Base/Split.antt =====
-- strings.Split and strings.Join with a separator of one character.
use mathlib.Core.Path.{◌≡◌, refl, ◌∙◌}
use mathlib.Core.Logic.{inl, inr}
use mathlib.Core.Bool.{Bool, true, not}
use mathlib.Core.List.{List, [], ◌∷◌, ◌++◌}
use native.Mathlib.Omega.{arith}
use Prim.Native.Nat.{ℕ}
use bomhort.Base.Tests.{eqb, eqb_iff, if◌then◌else◌, Bool-cases}
use bomhort.Base.Lists.{all}
use bomhort.Base.Texts.{Text}

-- A character in front of the first piece.
unfoldable pub extend_first : ℕ → List Text → List Text
extend_first c [] = (c ∷ []) ∷ []
extend_first c (piece ∷ pieces) = (c ∷ piece) ∷ pieces

-- strings.Split(s, sep)
unfoldable pub split_on : ℕ → Text → List Text
split_on sep [] = [] ∷ []
split_on sep (c ∷ s) =
    let rest = split_on sep s in if eqb c sep then [] ∷ rest else extend_first c rest

-- strings.Join(pieces, sep)
unfoldable pub join_with : ℕ → List Text → Text
join_with sep [] = []
join_with sep (piece ∷ []) = piece
join_with sep (piece ∷ next ∷ pieces) = piece ++ sep ∷ join_with sep (next ∷ pieces)

-- The text has no separator in it.
abbrev pub is_piece : ℕ → Text → Bool
is_piece sep s = all (λ c. not (eqb c sep)) s

extend_first-append :
    (c : ℕ) (piece : Text) (pieces more : List Text)
    → extend_first c ((piece ∷ pieces) ++ more) ≡ extend_first c (piece ∷ pieces) ++ more
unfolding extend_first
extend_first-append c piece pieces more = refl

pub split_on-piece : (sep : ℕ) (s : Text) → is_piece sep s ≡ true → split_on sep s ≡ s ∷ []
unfolding split_on extend_first
split_on-piece sep [] h = refl
split_on-piece sep (c ∷ s) h =
    let rest : split_on sep s ≡ s ∷ [] = split_on-piece sep s (ground arith) in
    rw rest (ground arith)

extend_first-cons :
    (c : ℕ) (pieces : List Text)
    → (first : Text) × (rest : List Text) × (extend_first c pieces ≡ first ∷ rest)
unfolding extend_first
extend_first-cons c [] = (c ∷ [], [], refl)
extend_first-cons c (piece ∷ pieces) = (c ∷ piece, pieces, refl)

-- There is always a first piece.
pub split_on-cons :
    (sep : ℕ) (s : Text) → (first : Text) × (rest : List Text) × (split_on sep s ≡ first ∷ rest)
unfolding split_on
split_on-cons sep [] = ([], [], refl)
split_on-cons sep (c ∷ s) = elim (Bool-cases (eqb c sep)) [
  | inl e ↦ ([], split_on sep s, rw e refl)
  | inr e ↦ let (first, rest, k) = extend_first-cons c (split_on sep s) in (first, rest, rw e k)
]

pub split_on-append :
    (sep : ℕ) (s t : Text) → split_on sep (s ++ sep ∷ t) ≡ split_on sep s ++ split_on sep t
unfolding split_on
split_on-append sep [] t = rw ((eqb_iff sep sep).1 refl) refl
split_on-append sep (c ∷ s) t = elim (Bool-cases (eqb c sep)) [
  | inl e ↦ rw (e, split_on-append sep s t) refl
  | inr e ↦
      rw (e, split_on-append sep s t)
        (let (first, rest, k) = split_on-cons sep s in
          rw k (extend_first-append c first rest (split_on sep t)))
]

pub split_on-join_with :
    (sep : ℕ) (piece : Text) (pieces : List Text)
    → all (is_piece sep) (piece ∷ pieces) ≡ true
    → split_on sep (join_with sep (piece ∷ pieces)) ≡ piece ∷ pieces
unfolding join_with
split_on-join_with sep piece [] h = split_on-piece sep piece (ground arith)
split_on-join_with sep piece (next ∷ pieces) h =
    split_on-append sep piece (join_with sep (next ∷ pieces))
    ∙ (let one : split_on sep piece ≡ piece ∷ [] = split_on-piece sep piece (ground arith) in
        rw (one, split_on-join_with sep next pieces (ground arith)) refl)
