-- ===== src/License/Token.antt =====
-- The tokenizer of backend/internal/license/expression.go. The loop over the runes carries the
-- tokens found so far and the word being read.
pub mod Lexical
pub mod RoundTrip
use bomhort.Base.{
  ℕ, Text, Bool, true, false, ◌||◌, List, [], ◌∷◌, ◌++◌, eqb, ◌==◌, to_upper, codes, any,
  if◌then◌else◌,
}

pub data Token : Type 0 where
  tok_id : Text → Token
  tok_and tok_or tok_with tok_lparen tok_rparen : Token

pub record Lexer : Type 0 where
  pub toks : List Token
  pub word : Text

-- The token of a finished word: an operator in any case, or an identifier.
unfoldable pub classify : Text → Token
unfolding to_upper ◌==◌
classify w =
    let up = to_upper w in
    if up == codes "AND"
    then tok_and
    else (if up == codes "OR" then tok_or else (if up == codes "WITH" then tok_with else tok_id w))

-- A word goes to the tokens, if there is one.
unfoldable pub flush : Lexer → Lexer
unfolding classify
flush l = elim l.word [
  | [] ↦ l
  | c ∷ w ↦ record { toks = l.toks ++ classify (c ∷ w) ∷ []; word = [] }
]

unfoldable pub push : Token → Lexer → Lexer
unfolding flush
push t l = record { toks = (flush l).toks ++ t ∷ []; word = (flush l).word }

unfoldable pub is_blank : ℕ → Bool
is_blank r = eqb r b' ' || eqb r 0x09 || eqb r 0x0a || eqb r 0x0d

-- One round of the loop.
unfoldable pub scan : Lexer → ℕ → Lexer
unfolding push flush is_blank
scan l r =
    if eqb r b'('
    then push tok_lparen l
    else (if eqb r b')'
        then push tok_rparen l
        else (if eqb r b','
            then push tok_and l
            else (if is_blank r then flush l else record l { word = l.word ++ r ∷ [] })))

unfoldable pub scan_all : Lexer → Text → Lexer
unfolding scan
scan_all l [] = l
scan_all l (r ∷ expr) = scan_all (scan l r) expr

unfoldable pub tokenize : Text → List Token
unfolding scan_all flush
tokenize expr = (flush (scan_all (record { toks = []; word = [] }) expr)).toks

abbrev pub is_operator : Token → Bool
is_operator (tok_id w) = false
is_operator _ = true

unfoldable pub has_operator : List Token → Bool
has_operator toks = any is_operator toks
