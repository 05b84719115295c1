-- ===== src/License/Evaluate/Total.antt =====
-- Evaluation of the trees that the parser builds (backend/internal/license/expression.go).
use bomhort.Base.{Text, ◌≡◌, refl, List, [], ◌∷◌, some}
use bomhort.License.Category.{Category, ExpressionMode, strict, permissive_wins, off}
use bomhort.License.Token.{Token, tokenize}
use bomhort.License.Node.{Node, Nodes, leaf, node_and, nil, cons}
use bomhort.License.Result.{ok}
use bomhort.License.Parse.{parse_expression, join_or, join_and}
use bomhort.License.Parse.Grammar.{
  OrExpr, OrTail, AndExpr, AndTail, WithExpr, Primary, or_expr, or_end, or_more, and_expr, and_end,
  and_more, plain, exception, parens, ident,
}
use bomhort.License.Parse.Complete.{parse_tokens_iff}
use bomhort.License.Leaf.{lookup_leaf}
use bomhort.License.Evaluate.{
  best_of, worst_of, combine_choice, combine_conjunction, combine_and, evaluate, evaluate_all,
}

module _ (mode : ExpressionMode) (lookup : Text → Category) where
  abbrev HasValue : Node → Type 0
  HasValue n = (c : Category) × (evaluate mode lookup n ≡ some c)

  abbrev HasValues : Nodes → Type 0
  HasValues ns = (cats : List Category) × (evaluate_all mode lookup ns ≡ some cats)

  HasValues-cons : (n : Node) (ns : Nodes) → HasValue n → HasValues ns → HasValues (cons n ns)
  unfolding evaluate
  HasValues-cons n ns (c, e) (cats, q) = (c ∷ cats, rw (e, q) refl)

  HasValue-join_or : (n : Node) (ns : Nodes) → HasValue n → HasValues ns → HasValue (join_or n ns)
  unfolding join_or evaluate combine_choice
  HasValue-join_or n nil v vs = v
  HasValue-join_or n (cons m ns) (c, e) (cats, q) = (best_of c cats, simp (e, q))

  combine_and-total :
      (c : Category) (cats : List Category)
      → (d : Category) × (combine_and mode (c ∷ cats) ≡ some d)
  combine_and-total c cats = go mode
    where
      go : (m : ExpressionMode) → (d : Category) × (combine_and m (c ∷ cats) ≡ some d)
      go permissive_wins = (best_of c cats, unfold combine_and combine_choice in refl)
      go strict = (worst_of c cats, unfold combine_and combine_conjunction in refl)
      go off = (worst_of c cats, unfold combine_and combine_conjunction in refl)

  HasValue-node_and :
      (ns : Nodes) (c : Category) (cats : List Category)
      → evaluate_all mode lookup ns ≡ some (c ∷ cats)
      → HasValue (node_and ns)
  unfolding evaluate
  HasValue-node_and ns c cats e = let (d, r) = combine_and-total c cats in (d, rw e r)

  HasValue-join_and : (n : Node) (ns : Nodes) → HasValue n → HasValues ns → HasValue (join_and n ns)
  unfolding join_and evaluate
  HasValue-join_and n nil v vs = v
  HasValue-join_and n (cons m ns) (c, e) (cats, q) =
      HasValue-node_and (cons n (cons m ns)) c cats (simp (e, q))

  HasValue-leaf : (id : Text) → HasValue (leaf id)
  unfolding evaluate
  HasValue-leaf id = (lookup_leaf lookup id, refl)

  HasValues-nil : HasValues nil
  unfolding evaluate
  HasValues-nil = ([], refl)

  mutual
    OrExpr-HasValue : {ts : List Token} {n : Node} → OrExpr ts n → HasValue n
    OrExpr-HasValue (or_expr {n} {ns} e g p q) =
        rw g (HasValue-join_or n ns (AndExpr-HasValue p) (OrTail-HasValues q))

    OrTail-HasValues : {ts : List Token} {ns : Nodes} → OrTail ts ns → HasValues ns
    OrTail-HasValues or_end = HasValues-nil
    OrTail-HasValues (or_more {n} {ns} e p q) =
        HasValues-cons n ns (AndExpr-HasValue p) (OrTail-HasValues q)

    AndExpr-HasValue : {ts : List Token} {n : Node} → AndExpr ts n → HasValue n
    AndExpr-HasValue (and_expr {n} {ns} e g p q) =
        rw g (HasValue-join_and n ns (WithExpr-HasValue p) (AndTail-HasValues q))

    AndTail-HasValues : {ts : List Token} {ns : Nodes} → AndTail ts ns → HasValues ns
    AndTail-HasValues and_end = HasValues-nil
    AndTail-HasValues (and_more {n} {ns} e p q) =
        HasValues-cons n ns (WithExpr-HasValue p) (AndTail-HasValues q)

    WithExpr-HasValue : {ts : List Token} {n : Node} → WithExpr ts n → HasValue n
    WithExpr-HasValue (plain p) = Primary-HasValue p
    WithExpr-HasValue (exception {id} exc e g h p) = rw g (HasValue-leaf _)

    Primary-HasValue : {ts : List Token} {n : Node} → Primary ts n → HasValue n
    Primary-HasValue (parens e p) = OrExpr-HasValue p
    Primary-HasValue (ident {id} e g) = rw g (HasValue-leaf id)

-- A tree that the parser returns has a category, in every mode and under every policy.
pub evaluate-total :
    (mode : ExpressionMode) (lookup : Text → Category) (expr : Text) (n : Node)
    → parse_expression expr ≡ ok n
    → (c : Category) × (evaluate mode lookup n ≡ some c)
unfolding parse_expression
evaluate-total mode lookup expr n h =
    OrExpr-HasValue mode lookup ((parse_tokens_iff (tokenize expr) n).0 h)
