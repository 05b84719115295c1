-- ===== src/License/Parse/Complete.antt =====
-- The parser run on the expressions of the grammar (backend/internal/license/expression.go).
use bomhort.Base.{
  Text, codes, ℕ, zero, suc, ◌+◌, ◌*◌, ◌≤◌, ◌≡◌, ◌↔◌, refl, ap, ◌∙◌, Bool, true, false, List, [],
  ◌∷◌, ◌++◌, append_assoc, append-nil, arith, length,
}
use bomhort.License.Token.{Token, tok_id, tok_and, tok_or, tok_with, tok_lparen, tok_rparen}
use bomhort.License.Node.{Node, Nodes, leaf, nil}
use bomhort.License.Result.{ok, Yields-ok}
use bomhort.License.Parse.{
  close, with_clause, parse_or, or_loop, parse_and, and_loop, parse_with, parse_primary, finish,
  parse_tokens,
}
use bomhort.License.Parse.Grammar.{
  OrExpr, OrTail, AndExpr, AndTail, WithExpr, Primary, or_expr, or_end, or_more, and_expr, and_end,
  and_more, plain, exception, parens, ident,
}
use bomhort.License.Parse.Sound.{length-append_tokens, parse_tokens-Yields}

-- What may follow an expression of each level without being read as more of it.
abbrev ends_with : List Token → Bool
ends_with (tok_with ∷ ts) = false
ends_with _ = true

abbrev ends_and : List Token → Bool
ends_and (tok_with ∷ ts) = false
ends_and (tok_and ∷ ts) = false
ends_and _ = true

abbrev ends_or : List Token → Bool
ends_or (tok_with ∷ ts) = false
ends_or (tok_and ∷ ts) = false
ends_or (tok_or ∷ ts) = false
ends_or _ = true

ends_and-OrTail :
    (us rest : List Token) {ns : Nodes}
    → OrTail us ns
    → ends_or rest ≡ true
    → ends_and (us ++ rest) ≡ true
ends_and-OrTail us [] or_end h = refl
ends_and-OrTail us (tok_id x ∷ rest) or_end h = refl
ends_and-OrTail us (tok_lparen ∷ rest) or_end h = refl
ends_and-OrTail us (tok_rparen ∷ rest) or_end h = refl
ends_and-OrTail us (_ ∷ rest) or_end h = cc
ends_and-OrTail us rest (or_more e p q) h = rw e refl

ends_with-AndTail :
    (us rest : List Token) {ns : Nodes}
    → AndTail us ns
    → ends_and rest ≡ true
    → ends_with (us ++ rest) ≡ true
ends_with-AndTail us [] and_end h = refl
ends_with-AndTail us (tok_with ∷ rest) and_end h = cc
ends_with-AndTail us (_ ∷ rest) and_end h = refl
ends_with-AndTail us rest (and_more e p q) h = rw e refl

or_loop-end :
    (f : ℕ) (rest : List Token) → ends_or rest ≡ true → or_loop (suc f) rest ≡ ok (nil, rest)
unfolding or_loop
or_loop-end f [] h = refl
or_loop-end f (tok_or ∷ rest) h = cc
or_loop-end f (_ ∷ rest) h = refl

and_loop-end :
    (f : ℕ) (rest : List Token) → ends_and rest ≡ true → and_loop (suc f) rest ≡ ok (nil, rest)
unfolding and_loop
and_loop-end f [] h = refl
and_loop-end f (tok_and ∷ rest) h = cc
and_loop-end f (_ ∷ rest) h = refl

with_clause-end :
    (prim : Node) (rest : List Token)
    → ends_with rest ≡ true
    → with_clause prim rest ≡ ok (prim, rest)
unfolding with_clause
with_clause-end prim [] h = refl
with_clause-end prim (tok_with ∷ rest) h = cc
with_clause-end prim (_ ∷ rest) h = refl

with_clause-exception :
    (id exc : Text) (rest : List Token)
    → with_clause (leaf id) (tok_with ∷ tok_id exc ∷ rest)
      ≡ ok (leaf (id ++ (codes " WITH " ++ exc)), rest)
unfolding with_clause
with_clause-exception id exc rest = refl

close-paren : (n : Node) (rest : List Token) → close n (tok_rparen ∷ rest) ≡ ok (n, rest)
unfolding close
close-paren n rest = refl

size : (all xs ys : List Token) → all ≡ xs ++ ys → length all ≡ length xs + length ys
size all xs ys e = ap length e ∙ length-append_tokens xs ys

mutual
  unfolding parse_or

  parse_or_complete :
      (f : ℕ) (all rest : List Token) (n : Node)
      → OrExpr all n
      → ends_or rest ≡ true
      → 4 * length all + 4 ≤ f
      → parse_or f (all ++ rest) ≡ ok (n, rest)
  parse_or_complete zero all rest m d s h = absurd (omega arith)
  parse_or_complete (suc f) all rest m (or_expr {ts} {us} {n} {ns} e g p q) s h =
      let k = size all ts us e in
      let first =
        parse_and_complete f ts (us ++ rest) n p (ends_and-OrTail us rest q s) (omega arith) in
      let loop = or_loop_complete f us rest ns q s (omega arith) in
      simp (e, g, append_assoc, first, loop)

  or_loop_complete :
      (f : ℕ) (all rest : List Token) (ns : Nodes)
      → OrTail all ns
      → ends_or rest ≡ true
      → 4 * length all + 1 ≤ f
      → or_loop f (all ++ rest) ≡ ok (ns, rest)
  or_loop_complete zero all rest m d s h = absurd (omega arith)
  or_loop_complete (suc f) all rest m or_end s h = or_loop-end f rest s
  or_loop_complete (suc f) all rest m (or_more {ts} {us} {n} {ns} e p q) s h =
      let k = ap length e ∙ ap suc (length-append_tokens ts us) in
      let first =
        parse_and_complete f ts (us ++ rest) n p (ends_and-OrTail us rest q s) (omega arith) in
      let loop = or_loop_complete f us rest ns q s (omega arith) in
      simp (e, append_assoc, first, loop)

  parse_and_complete :
      (f : ℕ) (all rest : List Token) (n : Node)
      → AndExpr all n
      → ends_and rest ≡ true
      → 4 * length all + 3 ≤ f
      → parse_and f (all ++ rest) ≡ ok (n, rest)
  parse_and_complete zero all rest m d s h = absurd (omega arith)
  parse_and_complete (suc f) all rest m (and_expr {ts} {us} {n} {ns} e g p q) s h =
      let k = size all ts us e in
      let first =
        parse_with_complete f ts (us ++ rest) n p (ends_with-AndTail us rest q s) (omega arith) in
      let loop = and_loop_complete f us rest ns q s (omega arith) in
      simp (e, g, append_assoc, first, loop)

  and_loop_complete :
      (f : ℕ) (all rest : List Token) (ns : Nodes)
      → AndTail all ns
      → ends_and rest ≡ true
      → 4 * length all + 1 ≤ f
      → and_loop f (all ++ rest) ≡ ok (ns, rest)
  and_loop_complete zero all rest m d s h = absurd (omega arith)
  and_loop_complete (suc f) all rest m and_end s h = and_loop-end f rest s
  and_loop_complete (suc f) all rest m (and_more {ts} {us} {n} {ns} e p q) s h =
      let k = ap length e ∙ ap suc (length-append_tokens ts us) in
      let first =
        parse_with_complete f ts (us ++ rest) n p (ends_with-AndTail us rest q s) (omega arith) in
      let loop = and_loop_complete f us rest ns q s (omega arith) in
      simp (e, append_assoc, first, loop)

  parse_with_complete :
      (f : ℕ) (all rest : List Token) (n : Node)
      → WithExpr all n
      → ends_with rest ≡ true
      → 4 * length all + 2 ≤ f
      → parse_with f (all ++ rest) ≡ ok (n, rest)
  parse_with_complete zero all rest m d s h = absurd (omega arith)
  parse_with_complete (suc f) all rest m (plain p) s h =
      rw (parse_primary_complete f all rest m p (omega arith)) (with_clause-end m rest s)
  parse_with_complete (suc f) all rest m (exception {ts} {n} {id} exc e g g' p) s h =
      let k = size all ts (tok_with ∷ tok_id exc ∷ []) e in
      let first = parse_primary_complete f ts (tok_with ∷ tok_id exc ∷ rest) n p (omega arith) in
      simp (e, g, append_assoc, first) (rw g' (with_clause-exception id exc rest))

  parse_primary_complete :
      (f : ℕ) (all rest : List Token) (n : Node)
      → Primary all n
      → 4 * length all + 1 ≤ f
      → parse_primary f (all ++ rest) ≡ ok (n, rest)
  parse_primary_complete zero all rest m d h = absurd (omega arith)
  parse_primary_complete (suc f) all rest m (parens {ts} e p) h =
      let k = ap length e ∙ ap suc (length-append_tokens ts (tok_rparen ∷ [])) in
      let inner = parse_or_complete f ts (tok_rparen ∷ rest) m p refl (omega arith) in
      simp (e, append_assoc, inner) (close-paren m rest)
  parse_primary_complete (suc f) all rest m (ident e g) h = rw (e, g) refl

parse_tokens_complete : (ts : List Token) (n : Node) → OrExpr ts n → parse_tokens ts ≡ ok n
unfolding parse_tokens finish
parse_tokens_complete [] n d =
    let run = parse_or_complete 4 [] [] n d refl (omega arith) in unfold parse_or in cc run
parse_tokens_complete (t ∷ ts) n d =
    let run = parse_or_complete (4 * length (t ∷ ts) + 4) (t ∷ ts) [] n d refl (omega arith) in
    let whole = rw append-nil at run in rw whole refl

-- The parser returns a tree exactly for the token lists that the grammar derives, and returns the tree of the
-- derivation. In this grammar WITH follows a single identifier only, in parentheses or not; the comment
-- on the parser allows it behind any primary.
pub parse_tokens_iff : (ts : List Token) (n : Node) → (parse_tokens ts ≡ ok n) ↔ OrExpr ts n
parse_tokens_iff ts n = (Yields-ok (parse_tokens-Yields ts), parse_tokens_complete ts n)

-- The grammar is unambiguous.
pub OrExpr-unique : (ts : List Token) (m n : Node) → OrExpr ts m → OrExpr ts n → m ≡ n
OrExpr-unique ts m n d e = cc ((parse_tokens_iff ts m).1 d, (parse_tokens_iff ts n).1 e)
