-- ===== src/License/Parse/Grammar.antt =====
-- The grammar of the parser of backend/internal/license/expression.go, as derivations: which tokens are
-- an expression, and of which tree. It is the grammar of the parser's comment with one restriction that
-- the comment leaves out: WITH follows a primary that is a single identifier, in parentheses or not.
use bomhort.Base.{Text, ◌≡◌, List, [], ◌∷◌, ◌++◌, codes}
use bomhort.License.Token.{Token, tok_id, tok_and, tok_or, tok_with, tok_lparen, tok_rparen}
use bomhort.License.Node.{Node, Nodes, leaf, nil, cons}
use bomhort.License.Parse.{join_or, join_and}

mutual
  -- or-expr := and-expr ( OR and-expr )*
  pub data OrExpr : List Token → Node → Type 0 where
    or_expr :
        {all ts us : List Token} {m n : Node} {ns : Nodes}
        → all ≡ ts ++ us
        → m ≡ join_or n ns
        → AndExpr ts n
        → OrTail us ns
        → OrExpr all m

  pub data OrTail : List Token → Nodes → Type 0 where
    or_end : OrTail [] nil
    or_more :
        {all ts us : List Token} {n : Node} {ns : Nodes}
        → all ≡ tok_or ∷ (ts ++ us)
        → AndExpr ts n
        → OrTail us ns
        → OrTail all (cons n ns)

  -- and-expr := with-expr ( AND with-expr )*
  pub data AndExpr : List Token → Node → Type 0 where
    and_expr :
        {all ts us : List Token} {m n : Node} {ns : Nodes}
        → all ≡ ts ++ us
        → m ≡ join_and n ns
        → WithExpr ts n
        → AndTail us ns
        → AndExpr all m

  pub data AndTail : List Token → Nodes → Type 0 where
    and_end : AndTail [] nil
    and_more :
        {all ts us : List Token} {n : Node} {ns : Nodes}
        → all ≡ tok_and ∷ (ts ++ us)
        → WithExpr ts n
        → AndTail us ns
        → AndTail all (cons n ns)

  -- with-expr := primary | primary WITH ID, where the second primary has a leaf as its tree
  pub data WithExpr : List Token → Node → Type 0 where
    plain : {ts : List Token} {n : Node} → Primary ts n → WithExpr ts n
    exception :
        {all ts : List Token} {m n : Node} {id : Text} (exc : Text)
        → all ≡ ts ++ tok_with ∷ tok_id exc ∷ []
        → m ≡ leaf (id ++ (codes " WITH " ++ exc))
        → n ≡ leaf id
        → Primary ts n
        → WithExpr all m

  -- primary := '(' or-expr ')' | ID
  pub data Primary : List Token → Node → Type 0 where
    parens :
        {all ts : List Token} {n : Node}
        → all ≡ tok_lparen ∷ (ts ++ tok_rparen ∷ [])
        → OrExpr ts n
        → Primary all n
    ident :
        {all : List Token} {n : Node} {id : Text}
        → all ≡ tok_id id ∷ []
        → n ≡ leaf id
        → Primary all n
