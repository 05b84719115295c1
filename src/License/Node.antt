-- ===== src/License/Node.antt =====
-- `exprNode` of backend/internal/license/expression.go: the syntax tree of an SPDX expression.
use bomhort.Base.{Text, List, [], ◌∷◌, ◌++◌}

-- `Nodes` is the slice of a node's children.
mutual
  pub data Node : Type 0 where
    leaf : Text → Node
    node_and : Nodes → Node
    node_or : Nodes → Node

  pub data Nodes : Type 0 where
    nil : Nodes
    cons : Node → Nodes → Nodes

unfoldable mutual
  pub leaf_ids : Node → List Text
  leaf_ids (leaf id) = id ∷ []
  leaf_ids (node_and ns) = leaf_ids_all ns
  leaf_ids (node_or ns) = leaf_ids_all ns

  pub leaf_ids_all : Nodes → List Text
  leaf_ids_all nil = []
  leaf_ids_all (cons n ns) = leaf_ids n ++ leaf_ids_all ns
