-- ===== src/License/Token/Lexical.antt =====
-- The words that the tokenizer of backend/internal/license/expression.go finds.
use bomhort.Base.{
  ℕ, Text, ◌≡◌, refl, sym, Bool-cases, Bool, true, false, ◌||◌, not, List, [], ◌∷◌, ◌++◌, arith,
  eqb, ◌==◌, to_upper, codes, all, if◌then◌else◌,
}
use mathlib.Core.Path.{subst}
use mathlib.Core.Logic.{◌⊎◌, inl, inr}
use bomhort.License.Token.{
  Token, tok_id, tok_and, tok_or, tok_with, tok_lparen, tok_rparen, Lexer, classify, flush, push,
  is_blank, scan, scan_all, tokenize,
}

-- The runes that end a word.
unfoldable pub is_separator : ℕ → Bool
unfolding is_blank
is_separator r = eqb r b'(' || eqb r b')' || eqb r b',' || is_blank r

-- The words that the tokenizer turns into identifiers: not empty, unbroken, and no operator.
abbrev pub IsWord : Text → Type 0
IsWord [] = ⊥
IsWord (c ∷ w) =
    (all (λ r. not (is_separator r)) (c ∷ w) ≡ true) × (classify (c ∷ w) ≡ tok_id (c ∷ w))

abbrev pub IsLexical : List Token → Type 0
IsLexical [] = Unit
IsLexical (tok_id w ∷ ts) = IsWord w × IsLexical ts
IsLexical (_ ∷ ts) = IsLexical ts

IsLexical-concat :
    (ts : List Token) (t : Token) → IsLexical ts → IsLexical (t ∷ []) → IsLexical (ts ++ t ∷ [])
IsLexical-concat [] t h k = k
IsLexical-concat (tok_id w ∷ ts) t h k = (h.0, IsLexical-concat ts t h.1 k)
IsLexical-concat (tok_and ∷ ts) t h k = IsLexical-concat ts t h k
IsLexical-concat (_ ∷ ts) t h k = IsLexical-concat ts t h k

classify_cases :
    (a b c : Bool) (w : Text)
    → let t : Token =
        if a then tok_and else (if b then tok_or else (if c then tok_with else tok_id w)) in
      (t ≡ tok_id w) ⊎ IsLexical (t ∷ [])
classify_cases true b c w = inr tt
classify_cases false true c w = inr tt
classify_cases false false true w = inr tt
classify_cases false false false w = inl refl

-- A word without separators becomes an operator, or an identifier that is that word.
classify-IsLexical :
    (c : ℕ) (w : Text)
    → all (λ r. not (is_separator r)) (c ∷ w) ≡ true
    → IsLexical (classify (c ∷ w) ∷ [])
classify-IsLexical c w clean = elim (cases) [
  | inl name ↦ subst (λ t. IsLexical (t ∷ [])) (sym name) ((clean, name), tt)
  | inr h ↦ h
]
  where
    cases : (classify (c ∷ w) ≡ tok_id (c ∷ w)) ⊎ IsLexical (classify (c ∷ w) ∷ [])
    cases =
        unfold classify in
        classify_cases (to_upper (c ∷ w) == codes "AND") (to_upper (c ∷ w) == codes "OR")
          (to_upper (c ∷ w) == codes "WITH") (c ∷ w)

-- The tokens so far are lexical, and the word being read is unbroken.
record IsReading (l : Lexer) : Type 0 where
  lexical : IsLexical l.toks
  unbroken : all (λ r. not (is_separator r)) l.word ≡ true

flush-IsReading :
    (ts : List Token) (w : Text)
    → IsReading (record { toks = ts; word = w })
    → IsReading (flush (record { toks = ts; word = w }))
unfolding flush
flush-IsReading ts [] h = h
flush-IsReading ts (c ∷ w) h = record {
  lexical = IsLexical-concat ts (classify (c ∷ w)) h.lexical (classify-IsLexical c w h.unbroken);
  unbroken = refl;
}

word-flush : (l : Lexer) → (flush l).word ≡ []
unfolding flush
word-flush l = ground arith

push-IsReading : (t : Token) (l : Lexer) → IsLexical (t ∷ []) → IsReading l → IsReading (push t l)
unfolding push
push-IsReading t l k h = record {
  lexical = IsLexical-concat (flush l).toks t (flush-IsReading l.toks l.word h).lexical k;
  unbroken = rw word-flush refl;
}

all-concat :
    (p : ℕ → Bool) (w : Text) (r : ℕ) → all p w ≡ true → p r ≡ true → all p (w ++ r ∷ []) ≡ true
all-concat p [] r h k = ground arith
all-concat p (c ∷ w) r h k = ground (arith, all-concat p w r)

scan-IsReading : (l : Lexer) (r : ℕ) → IsReading l → IsReading (scan l r)
unfolding scan
scan-IsReading l r h = elim (Bool-cases (eqb r b'(')) [
  | inl e ↦ rw e (push-IsReading tok_lparen l tt h)
  | inr e ↦ rw e (elim (Bool-cases (eqb r b')')) [
    | inl f ↦ rw f (push-IsReading tok_rparen l tt h)
    | inr f ↦ rw f (elim (Bool-cases (eqb r b',')) [
      | inl g ↦ rw g (push-IsReading tok_and l tt h)
      | inr g ↦ rw g (elim (Bool-cases (is_blank r)) [
        | inl k ↦ rw k (flush-IsReading l.toks l.word h)
        | inr k ↦ rw k (record {
          lexical = h.lexical;
          unbroken = all-concat _ l.word r h.unbroken (unfold is_separator in ground arith);
        })
      ])
    ])
  ])
]

scan_all-IsReading : (l : Lexer) (s : Text) → IsReading l → IsReading (scan_all l s)
unfolding scan_all
scan_all-IsReading l [] h = h
scan_all-IsReading l (r ∷ s) h = scan_all-IsReading (scan l r) s (scan-IsReading l r h)

-- Whatever the input, the identifiers found are unbroken words that are no operators.
pub tokenize-IsLexical : (s : Text) → IsLexical (tokenize s)
unfolding tokenize
tokenize-IsLexical s =
    let end =
      scan_all-IsReading (record { toks = []; word = [] }) s
        (record { lexical = tt; unbroken = refl }) in
    (flush-IsReading _ _ end).lexical
