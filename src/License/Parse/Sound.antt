-- ===== src/License/Parse/Sound.antt =====
-- What the parser of backend/internal/license/expression.go accepts, and its fuel.
use bomhort.Base.{
  ℕ, zero, suc, ◌+◌, ◌*◌, ◌≤◌, ◌≡◌, ◌≢◌, refl, ap, sym, ◌∙◌, List, [], ◌∷◌, ◌++◌, append_assoc,
  append-nil, arith, length, length-append, subst,
}
use bomhort.License.Token.{Token, tok_id, tok_and, tok_or, tok_with, tok_lparen, tok_rparen}
use bomhort.License.Node.{Node, leaf, node_and, node_or}
use bomhort.License.Result.{
  out_of_fuel, Yields, yields, refuses, Yields-ne-out_of_fuel, Yields-bind,
}
use bomhort.License.Parse.{
  close, with_clause, parse_or, or_loop, parse_and, and_loop, parse_with, parse_primary, finish,
  parse_tokens,
}
use bomhort.License.Parse.Grammar.{
  OrExpr, OrTail, AndExpr, AndTail, WithExpr, Primary, or_expr, or_end, or_more, and_expr, and_end,
  and_more, plain, exception, parens, ident,
}

-- The tokens up to `rest` are an expression of the result.
abbrev Reads {ℓ κ} : {A : Type ℓ} → (List Token → A → Type κ) → List Token → A × List Token → Type κ
Reads E ts (a, rest) = (front : List Token) × (ts ≡ front ++ rest) × E front a

pub length-append_tokens : (xs ys : List Token) → length (xs ++ ys) ≡ length xs + length ys
length-append_tokens = length-append

shrinks : (ts front rest : List Token) → ts ≡ front ++ rest → length rest ≤ length ts
shrinks ts front rest e = omega (arith, ap length e, length-append_tokens front rest)

with_clause-Reads :
    (ts rest front : List Token) (prim : Node)
    → ts ≡ front ++ rest
    → Primary front prim
    → Yields (Reads WithExpr ts) (with_clause prim rest)
unfolding with_clause
with_clause-Reads ts (tok_with ∷ tok_id exc ∷ rest) front (leaf id) e p =
    yields (front ++ tok_with ∷ tok_id exc ∷ [], rw append_assoc e, exception exc refl refl refl p)
with_clause-Reads ts (tok_with ∷ tok_id exc ∷ rest) front (node_and ns) e p = refuses
with_clause-Reads ts (tok_with ∷ tok_id exc ∷ rest) front (node_or ns) e p = refuses
with_clause-Reads ts (tok_with ∷ []) front (leaf id) e p = refuses
with_clause-Reads ts (tok_with ∷ []) front _ e p = refuses
with_clause-Reads ts (tok_with ∷ tok_and ∷ rest) front (leaf id) e p = refuses
with_clause-Reads ts (tok_with ∷ _ ∷ rest) front (leaf id) e p = refuses
with_clause-Reads ts (tok_with ∷ _ ∷ rest) front _ e p = refuses
with_clause-Reads ts [] front prim e p = yields (front, e, plain p)
with_clause-Reads ts (_ ∷ rest) front prim e p = yields (front, e, plain p)

close-Reads :
    (ts rest front : List Token) (inner : Node)
    → ts ≡ front ++ rest
    → OrExpr front inner
    → Yields (Reads Primary (tok_lparen ∷ ts)) (close inner rest)
unfolding close
close-Reads ts (tok_rparen ∷ rest) front inner e p = yields (
  tok_lparen ∷ (front ++ tok_rparen ∷ []),
  rw append_assoc (ap (λ us. tok_lparen ∷ us) e),
  parens refl p,
)
close-Reads ts [] front inner e p = refuses
close-Reads ts (_ ∷ rest) front inner e p = refuses

mutual
  unfolding parse_or

  parse_or-Reads :
      (f : ℕ) (ts : List Token) → 4 * length ts + 4 ≤ f → Yields (Reads OrExpr ts) (parse_or f ts)
  parse_or-Reads zero ts h = absurd (omega arith)
  parse_or-Reads (suc f) ts h =
      Yields-bind (parse_and-Reads f ts (omega arith)) λ (left, ts₁) (front, e, p).
        Yields-bind (or_loop-Reads f ts₁ (omega (arith, shrinks ts front ts₁ e)))
          λ (more, ts₂) (tail, e₁, q).
            yields (front ++ tail, simp (e, e₁, append_assoc), or_expr refl refl p q)

  or_loop-Reads :
      (f : ℕ) (ts : List Token) → 4 * length ts + 1 ≤ f → Yields (Reads OrTail ts) (or_loop f ts)
  or_loop-Reads zero ts h = absurd (omega arith)
  or_loop-Reads (suc f) (tok_or ∷ ts) h =
      Yields-bind (parse_and-Reads f ts (omega arith)) λ (right, ts₁) (front, e, p).
        Yields-bind (or_loop-Reads f ts₁ (omega (arith, shrinks ts front ts₁ e)))
          λ (more, ts₂) (tail, e₁, q).
            yields (tok_or ∷ (front ++ tail), simp (e, e₁, append_assoc), or_more refl p q)
  or_loop-Reads (suc f) _ h = yields ([], refl, or_end)

  parse_and-Reads :
      (f : ℕ) (ts : List Token) → 4 * length ts + 3 ≤ f → Yields (Reads AndExpr ts) (parse_and f ts)
  parse_and-Reads zero ts h = absurd (omega arith)
  parse_and-Reads (suc f) ts h =
      Yields-bind (parse_with-Reads f ts (omega arith)) λ (left, ts₁) (front, e, p).
        Yields-bind (and_loop-Reads f ts₁ (omega (arith, shrinks ts front ts₁ e)))
          λ (more, ts₂) (tail, e₁, q).
            yields (front ++ tail, simp (e, e₁, append_assoc), and_expr refl refl p q)

  and_loop-Reads :
      (f : ℕ) (ts : List Token) → 4 * length ts + 1 ≤ f → Yields (Reads AndTail ts) (and_loop f ts)
  and_loop-Reads zero ts h = absurd (omega arith)
  and_loop-Reads (suc f) (tok_and ∷ ts) h =
      Yields-bind (parse_with-Reads f ts (omega arith)) λ (right, ts₁) (front, e, p).
        Yields-bind (and_loop-Reads f ts₁ (omega (arith, shrinks ts front ts₁ e)))
          λ (more, ts₂) (tail, e₁, q).
            yields (tok_and ∷ (front ++ tail), simp (e, e₁, append_assoc), and_more refl p q)
  and_loop-Reads (suc f) _ h = yields ([], refl, and_end)

  parse_with-Reads :
      (f : ℕ) (ts : List Token)
      → 4 * length ts + 2 ≤ f
      → Yields (Reads WithExpr ts) (parse_with f ts)
  parse_with-Reads zero ts h = absurd (omega arith)
  parse_with-Reads (suc f) ts h =
      Yields-bind (parse_primary-Reads f ts (omega arith))
        λ (prim, ts₁) (front, e, p). with_clause-Reads ts ts₁ front prim e p

  parse_primary-Reads :
      (f : ℕ) (ts : List Token)
      → 4 * length ts + 1 ≤ f
      → Yields (Reads Primary ts) (parse_primary f ts)
  parse_primary-Reads zero ts h = absurd (omega arith)
  parse_primary-Reads (suc f) [] h = refuses
  parse_primary-Reads (suc f) (tok_lparen ∷ ts) h =
      Yields-bind (parse_or-Reads f ts (omega arith))
        λ (inner, ts₁) (front, e, p). close-Reads ts ts₁ front inner e p
  parse_primary-Reads (suc f) (tok_id id ∷ ts) h = yields (tok_id id ∷ [], refl, ident refl refl)
  parse_primary-Reads (suc f) (_ ∷ ts) h = refuses

finish-Yields :
    (ts rest front : List Token) (n : Node)
    → ts ≡ front ++ rest
    → OrExpr front n
    → Yields (OrExpr ts) (finish n rest)
unfolding finish
finish-Yields ts [] front n e p = yields (subst (λ us. OrExpr us n) (sym (e ∙ append-nil front)) p)
finish-Yields ts (_ ∷ _) front n e p = refuses

pub parse_tokens-Yields : (ts : List Token) → Yields (OrExpr ts) (parse_tokens ts)
unfolding parse_tokens
parse_tokens-Yields [] = refuses
parse_tokens-Yields (t ∷ ts) =
    Yields-bind (parse_or-Reads (4 * length (t ∷ ts) + 4) (t ∷ ts) (omega arith))
      λ (n, rest) (front, e, p). finish-Yields (t ∷ ts) rest front n e p

-- The parser never runs out of its fuel.
pub parse_tokens-ne-out_of_fuel : (ts : List Token) → parse_tokens ts ≢ out_of_fuel
parse_tokens-ne-out_of_fuel ts = Yields-ne-out_of_fuel (parse_tokens-Yields ts)
