-- ===== src/License/Parse.antt =====
-- The recursive-descent parser of backend/internal/license/expression.go. The position in the token
-- slice is the list of tokens that are left. What a call leaves is no structural part of what it was
-- given, so each call costs a unit of fuel; `parse_expression` hands out four units a token and four
-- more: four calls at most lie between two tokens. Errors carry their kind, not the position and
-- the wording that their messages hold.
pub mod Grammar
pub mod Sound
pub mod Complete
use bomhort.Base.{ℕ, zero, suc, ◌+◌, ◌*◌, Text, List, [], ◌∷◌, ◌++◌, codes, length}
use bomhort.License.Token.{
  Token, tok_id, tok_and, tok_or, tok_with, tok_lparen, tok_rparen, tokenize,
}
use bomhort.License.Node.{Node, Nodes, leaf, node_and, node_or, nil, cons}
use bomhort.License.Result.{Result, ok, err, ◌>>=◌}
use bomhort.License.Result

-- The loop's children behind the first: with none of them the first stands alone.
unfoldable pub join_or : Node → Nodes → Node
join_or left nil = left
join_or left (cons right more) = node_or (cons left (cons right more))

unfoldable pub join_and : Node → Nodes → Node
join_and left nil = left
join_and left (cons right more) = node_and (cons left (cons right more))

-- An exception identifier behind a single license identifier.
unfoldable pub attach : Node → List Token → Result (Node × List Token)
attach (leaf id) (tok_id exc ∷ ts) = ok (leaf (id ++ (codes " WITH " ++ exc)), ts)
attach _ (tok_id exc ∷ ts) = err Result.with_after_compound
attach _ _ = err Result.with_needs_exception

unfoldable pub close : Node → List Token → Result (Node × List Token)
close inner (tok_rparen ∷ ts) = ok (inner, ts)
close inner _ = err Result.missing_paren

-- The WITH clause behind a primary.
unfoldable pub with_clause : Node → List Token → Result (Node × List Token)
unfolding attach
with_clause prim (tok_with ∷ ts) = attach prim ts
with_clause prim ts = ok (prim, ts)

unfoldable mutual
  pub parse_or : ℕ → List Token → Result (Node × List Token)
  parse_or zero ts = Result.out_of_fuel
  parse_or (suc f) ts = do
    (left, ts₁) ← parse_and f ts
    (more, ts₂) ← or_loop f ts₁
    ok (join_or left more, ts₂)

  pub or_loop : ℕ → List Token → Result (Nodes × List Token)
  or_loop zero ts = Result.out_of_fuel
  or_loop (suc f) (tok_or ∷ ts) = do
    (right, ts₁) ← parse_and f ts
    (more, ts₂) ← or_loop f ts₁
    ok (cons right more, ts₂)
  or_loop (suc f) ts = ok (nil, ts)

  pub parse_and : ℕ → List Token → Result (Node × List Token)
  parse_and zero ts = Result.out_of_fuel
  parse_and (suc f) ts = do
    (left, ts₁) ← parse_with f ts
    (more, ts₂) ← and_loop f ts₁
    ok (join_and left more, ts₂)

  pub and_loop : ℕ → List Token → Result (Nodes × List Token)
  and_loop zero ts = Result.out_of_fuel
  and_loop (suc f) (tok_and ∷ ts) = do
    (right, ts₁) ← parse_with f ts
    (more, ts₂) ← and_loop f ts₁
    ok (cons right more, ts₂)
  and_loop (suc f) ts = ok (nil, ts)

  pub parse_with : ℕ → List Token → Result (Node × List Token)
  parse_with zero ts = Result.out_of_fuel
  parse_with (suc f) ts = do (prim, ts₁) ← parse_primary f ts; with_clause prim ts₁

  pub parse_primary : ℕ → List Token → Result (Node × List Token)
  parse_primary zero ts = Result.out_of_fuel
  parse_primary (suc f) [] = err Result.unexpected_end
  parse_primary (suc f) (tok_lparen ∷ ts) = do (inner, ts₁) ← parse_or f ts; close inner ts₁
  parse_primary (suc f) (tok_id id ∷ ts) = ok (leaf id, ts)
  parse_primary (suc f) (_ ∷ ts) = err Result.unexpected_operator

unfoldable pub finish : Node → List Token → Result Node
finish n [] = ok n
finish n (_ ∷ _) = err Result.unexpected_token

-- `parseExpression` behind the tokenizer.
unfoldable pub parse_tokens : List Token → Result Node
parse_tokens [] = err Result.empty_expression
parse_tokens (t ∷ ts) = do (n, rest) ← parse_or (4 * length (t ∷ ts) + 4) (t ∷ ts); finish n rest

unfoldable pub parse_expression : Text → Result Node
parse_expression expr = parse_tokens (tokenize expr)
