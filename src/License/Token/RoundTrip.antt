-- ===== src/License/Token/RoundTrip.antt =====
-- Printing tokens and reading them (backend/internal/license/expression.go).
use bomhort.License.Token.Lexical.{is_separator, IsLexical}
use bomhort.Base.{
  Text, ◌≡◌, refl, ap, ◌∙◌, Bool-cases, Bool, true, false, ◌||◌, not, List, [], ◌∷◌, ◌++◌,
  append_assoc, append-nil, arith, codes, all, if◌then◌else◌,
}
use mathlib.Core.Logic.{inl, inr}
use bomhort.License.Token.{
  Token, tok_id, tok_and, tok_or, tok_with, tok_lparen, tok_rparen, Lexer, flush, push, is_blank,
  scan, scan_all, tokenize,
}

abbrev pub spell : Token → Text
spell (tok_id w) = w
spell tok_and = codes "AND"
spell tok_or = codes "OR"
spell tok_with = codes "WITH"
spell tok_lparen = codes "("
spell tok_rparen = codes ")"

unfoldable pub render : List Token → Text
render [] = []
render (t ∷ ts) = spell t ++ b' ' ∷ render ts

scan_all-append : (l : Lexer) (s t : Text) → scan_all l (s ++ t) ≡ scan_all (scan_all l s) t
unfolding scan_all
scan_all-append l [] t = refl
scan_all-append l (r ∷ s) t = scan_all-append (scan l r) s t

-- Runes that end no word are collected.
scan_all-word :
    (ts : List Token) (v w : Text)
    → all (λ r. not (is_separator r)) w ≡ true
    → scan_all (record { toks = ts; word = v }) w ≡ record { toks = ts; word = v ++ w }
unfolding scan_all
scan_all-word ts v [] h = rw append-nil
scan_all-word ts v (r ∷ w) h =
    let here : scan (record { toks = ts; word = v }) r ≡ record { toks = ts; word = v ++ r ∷ [] } =
      unfold scan is_separator in ground arith in
    rw here (scan_all-word ts (v ++ r ∷ []) w (ground arith) ∙ rw append_assoc)

-- One token, with the blank behind it.
scan_all-spell :
    (ts : List Token) (t : Token) (rest : Text)
    → IsLexical (t ∷ [])
    → scan_all (record { toks = ts; word = [] }) (spell t ++ b' ' ∷ rest)
      ≡ scan_all (record { toks = ts ++ t ∷ []; word = [] }) rest
scan_all-spell ts (tok_id []) rest h = absurd h.0
scan_all-spell ts (tok_id (c ∷ w)) rest ((clean, name), h) =
    scan_all-append (record { toks = ts; word = [] }) (c ∷ w) (b' ' ∷ rest)
    ∙ ap (λ l. scan_all l (b' ' ∷ rest)) (scan_all-word ts [] (c ∷ w) clean)
    ∙ unfold scan_all in ap (λ t. scan_all (record { toks = ts ++ t ∷ []; word = [] }) rest) name
scan_all-spell ts tok_and rest h = unfold scan_all in refl
scan_all-spell ts _ rest h = unfold scan_all in refl

IsLexical-head :
    (t : Token) (ts : List Token) → IsLexical (t ∷ ts) → IsLexical (t ∷ []) × IsLexical ts
IsLexical-head (tok_id w) ts h = ((h.0, tt), h.1)
IsLexical-head tok_and ts h = (tt, h)
IsLexical-head _ ts h = (tt, h)

scan_all-render :
    (ts us : List Token)
    → IsLexical us
    → scan_all (record { toks = ts; word = [] }) (render us) ≡ record { toks = ts ++ us; word = [] }
unfolding render
scan_all-render ts [] h = unfold scan_all in rw append-nil
scan_all-render ts (t ∷ us) h =
    let (first, rest) = IsLexical-head t us h in
    scan_all-spell ts t (render us) first
    ∙ scan_all-render (ts ++ t ∷ []) us rest
    ∙ ap (λ us. record { toks = us; word = [] }) (append_assoc ts (t ∷ []) us)

abbrev is_paren : Token → Bool
is_paren tok_lparen = true
is_paren tok_rparen = true
is_paren _ = false

-- Two words are kept apart.
abbrev gap : Token → Token → Text
gap t u = if is_paren t || is_paren u then [] else b' ' ∷ []

-- Tokens printed behind another one, with a blank only where two words meet.
unfoldable pub compact_after : Token → List Token → Text
compact_after t [] = []
compact_after t (u ∷ us) = (gap t u ++ spell u) ++ compact_after u us

-- As behind a parenthesis, there is no blank in front.
abbrev pub compact : List Token → Text
compact ts = compact_after tok_lparen ts

abbrev fresh_lexer : List Token → Lexer
fresh_lexer ts = record { toks = ts; word = [] }

-- The tokens so far, of which the last may still be the word being read, unless it is a parenthesis.
record IsBehind (t : Token) (ts : List Token) (l : Lexer) : Type 0 where
  flushed : flush l ≡ fresh_lexer ts
  at_paren : is_paren t ≡ true → l ≡ fresh_lexer ts

word-IsBehind :
    (ts : List Token) (t : Token)
    → IsLexical (t ∷ [])
    → is_paren t ≡ false
    → IsBehind t (ts ++ t ∷ []) (scan_all (fresh_lexer ts) (spell t))
unfolding flush
word-IsBehind ts (tok_id []) h k = absurd h.0
word-IsBehind ts (tok_id (c ∷ w)) ((clean, name), h) k =
    let read = scan_all-word ts [] (c ∷ w) clean in
    record { flushed = rw read (ap (λ t. fresh_lexer (ts ++ t ∷ [])) name); at_paren = λ e. cc }
word-IsBehind ts tok_and h k = record { flushed = unfold scan_all in refl; at_paren = λ e. cc }
word-IsBehind ts tok_or h k = record { flushed = unfold scan_all in refl; at_paren = λ e. cc }
word-IsBehind ts tok_with h k = record { flushed = unfold scan_all in refl; at_paren = λ e. cc }
word-IsBehind ts _ h k = cc

gap-paren : (t u : Token) → is_paren u ≡ true → gap t u ≡ []
gap-paren t u h = elim (Bool-cases (is_paren t)) [ inl e ↦ rw e refl | inr e ↦ rw (e, h) refl ]

gap-word : (t u : Token) → is_paren t ≡ false → is_paren u ≡ false → gap t u ≡ b' ' ∷ []
gap-word t u h k = rw (h, k) refl

scan_all-blank : (l : Lexer) (s : Text) → scan_all l (b' ' ∷ s) ≡ scan_all (flush l) s
unfolding scan_all scan is_blank
scan_all-blank l s = refl

paren-IsBehind :
    (ts : List Token) (u : Token) (l : Lexer)
    → flush l ≡ fresh_lexer ts
    → is_paren u ≡ true
    → IsBehind u (ts ++ u ∷ []) (scan_all l (spell u))
unfolding scan_all scan push
paren-IsBehind ts tok_lparen l e h = record {
  flushed = rw e (unfold flush in refl);
  at_paren = λ k. rw e refl;
}
paren-IsBehind ts tok_rparen l e h = record {
  flushed = rw e (unfold flush in refl);
  at_paren = λ k. rw e refl;
}
paren-IsBehind ts _ l e h = cc

-- One more token.
compact-IsBehind :
    (ts : List Token) (t u : Token) (l : Lexer)
    → IsLexical (u ∷ [])
    → IsBehind t ts l
    → IsBehind u (ts ++ u ∷ []) (scan_all l (gap t u ++ spell u))
compact-IsBehind ts t u l h b = elim (Bool-cases (is_paren u)) [
  | inl f ↦ rw (gap-paren t u f) (paren-IsBehind ts u l b.flushed f)
  | inr f ↦ elim (Bool-cases (is_paren t)) [
    | inl e ↦ rw (e, b.at_paren e) (word-IsBehind ts u h f)
    | inr e ↦ rw (gap-word t u e f, scan_all-blank l (spell u), b.flushed) (word-IsBehind ts u h f)
  ]
]

compact_after-flush :
    (ts : List Token) (t : Token) (l : Lexer) (us : List Token)
    → IsLexical us
    → IsBehind t ts l
    → flush (scan_all l (compact_after t us)) ≡ fresh_lexer (ts ++ us)
unfolding compact_after
compact_after-flush ts t l [] h b = unfold scan_all in rw append-nil b.flushed
compact_after-flush ts t l (u ∷ us) h b =
    let (first, rest) = IsLexical-head u us h in
    ap flush (scan_all-append l (gap t u ++ spell u) (compact_after u us))
    ∙ compact_after-flush (ts ++ u ∷ []) u (scan_all l (gap t u ++ spell u)) us rest
        (compact-IsBehind ts t u l first b)
    ∙ ap fresh_lexer (append_assoc ts (u ∷ []) us)

-- Tokens whose identifiers are words are read back from both of their renderings: with a blank behind each of
-- them, and with a blank only between two words, so that words end at a parenthesis and at the end.
pub tokenize-render :
    (ts : List Token) → IsLexical ts → (tokenize (render ts) ≡ ts) × (tokenize (compact ts) ≡ ts)
unfolding tokenize
tokenize-render ts h = (
  ap (λ l. (flush l).toks) (scan_all-render [] ts h),
  ap (λ (l : Lexer). l.toks)
      (compact_after-flush [] tok_lparen (fresh_lexer []) ts h
        (record { flushed = unfold flush in refl; at_paren = λ e. refl })),
)
