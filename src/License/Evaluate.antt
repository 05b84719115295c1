-- ===== src/License/Evaluate.antt =====
-- Folding an expression tree into one category (backend/internal/license/expression.go). `none` is
-- the panic of `cats[0]` on a node without children.
pub mod Choices
pub mod Total
pub mod Leaves
use bomhort.Base.{Text, List, [], ◌∷◌, Option, none, some, ltb, if◌then◌else◌}
use bomhort.License.Category.{Category, severity, ExpressionMode, strict, permissive_wins, off}
use bomhort.License.Node.{Node, Nodes, leaf, node_and, node_or, nil, cons}
use bomhort.License.Leaf.{lookup_leaf}

-- the loop over cats[1:]
unfoldable pub best_of : Category → List Category → Category
best_of best [] = best
best_of best (c ∷ cats) = best_of (if ltb (severity c) (severity best) then c else best) cats

unfoldable pub worst_of : Category → List Category → Category
worst_of worst [] = worst
worst_of worst (c ∷ cats) = worst_of (if ltb (severity worst) (severity c) then c else worst) cats

unfoldable pub combine_choice : List Category → Option Category
unfolding best_of
combine_choice [] = none
combine_choice (c ∷ cats) = some (best_of c cats)

unfoldable pub combine_conjunction : List Category → Option Category
unfolding worst_of
combine_conjunction [] = none
combine_conjunction (c ∷ cats) = some (worst_of c cats)

infixl 5 ◌>>=◌
abbrev pub ◌>>=◌ : {A B : Type 0} → Option A → (A → Option B) → Option B
none >>= f = none
some a >>= f = f a

unfoldable pub combine_and : ExpressionMode → List Category → Option Category
unfolding combine_choice combine_conjunction
combine_and permissive_wins cats = combine_choice cats
combine_and _ cats = combine_conjunction cats

module _ (mode : ExpressionMode) (lookup : Text → Category) where
  unfoldable mutual
    pub evaluate : Node → Option Category
    evaluate (leaf id) = some (lookup_leaf lookup id)
    evaluate (node_or ns) = do cats ← evaluate_all ns; combine_choice cats
    evaluate (node_and ns) = do cats ← evaluate_all ns; combine_and mode cats

    pub evaluate_all : Nodes → Option (List Category)
    evaluate_all nil = some []
    evaluate_all (cons n ns) = do c ← evaluate n; cats ← evaluate_all ns; some (c ∷ cats)
