-- ===== src/License/Evaluate/Leaves.antt =====
-- The category of an expression and those of its licenses (backend/internal/license/expression.go).
use bomhort.Base.{
  subst, Text, ◌≡◌, inl, inr, refl, List, [], ◌∷◌, ◌++◌, some, arith, Memᴰ, ltb, if◌then◌else◌,
  Bool, true, false,
}
use mathlib.Core.List.Memᴰ
use bomhort.License.Category.{Category, severity, ExpressionMode, permissive_wins}
use bomhort.License.Node.{Node, Nodes, leaf, node_and, node_or, nil, cons, leaf_ids, leaf_ids_all}
use bomhort.License.Leaf.{lookup_leaf}
use bomhort.License.Evaluate.{
  best_of, worst_of, combine_choice, combine_conjunction, combine_and, evaluate, evaluate_all,
}
use bomhort.License.Evaluate.Choices.{>>=-eq-some}

-- the two ends of a conditional choice
if-mem :
    (b : Bool) (x y c : Category) (cats : List Category)
    → Memᴰ c ((if b then x else y) ∷ cats)
    → Memᴰ c (y ∷ x ∷ cats)
if-mem true x y c cats m = Memᴰ.tail m
if-mem false x y c cats m = elim (Memᴰ.cases_cons m) [
  | inl e ↦ Memᴰ.head e
  | inr r ↦ Memᴰ.tail (Memᴰ.tail r)
]

best_of-mem : (best : Category) (cats : List Category) → Memᴰ (best_of best cats) (best ∷ cats)
unfolding best_of
best_of-mem best [] = Memᴰ.head refl
best_of-mem best (c ∷ cats) =
    if-mem (ltb (severity c) (severity best)) c best _ cats
      (best_of-mem (if ltb (severity c) (severity best) then c else best) cats)

worst_of-mem : (worst : Category) (cats : List Category) → Memᴰ (worst_of worst cats) (worst ∷ cats)
unfolding worst_of
worst_of-mem worst [] = Memᴰ.head refl
worst_of-mem worst (c ∷ cats) =
    if-mem (ltb (severity worst) (severity c)) c worst _ cats
      (worst_of-mem (if ltb (severity worst) (severity c) then c else worst) cats)

combine_choice-mem :
    (cats : List Category) (c : Category) → combine_choice cats ≡ some c → Memᴰ c cats
unfolding combine_choice
combine_choice-mem [] c h = cc
combine_choice-mem (d ∷ cats) c h = Memᴰ.cast (ground arith) (best_of-mem d cats)

combine_and-mem :
    (mode : ExpressionMode) (cats : List Category) (c : Category)
    → combine_and mode cats ≡ some c
    → Memᴰ c cats
unfolding combine_and combine_conjunction
combine_and-mem permissive_wins cats c h = combine_choice-mem cats c h
combine_and-mem _ [] c h = cc
combine_and-mem _ (d ∷ cats) c h = Memᴰ.cast (ground arith) (worst_of-mem d cats)

module _ (mode : ExpressionMode) (lookup : Text → Category) where
  abbrev Among : Category → List Text → Type 0
  Among c ids = (id : Text) × Memᴰ id ids × (lookup_leaf lookup id ≡ c)

  Among-left : (c : Category) (xs ys : List Text) → Among c xs → Among c (xs ++ ys)
  Among-left c xs ys (id, m, e) = (id, Memᴰ.append_left ys m, e)

  Among-right : (c : Category) (xs ys : List Text) → Among c ys → Among c (xs ++ ys)
  Among-right c xs ys (id, m, e) = (id, Memᴰ.append_right xs m, e)

  mutual
    unfolding evaluate leaf_ids

    evaluate-Among :
        (n : Node) (c : Category) → evaluate mode lookup n ≡ some c → Among c (leaf_ids n)
    evaluate-Among (leaf id) c h = (id, Memᴰ.head refl, ground arith)
    evaluate-Among (node_or ns) c h =
        let (cats, e, q) = >>=-eq-some (evaluate_all mode lookup ns) _ c h in
        evaluate_all-Among ns cats e c (combine_choice-mem cats c q)
    evaluate-Among (node_and ns) c h =
        let (cats, e, q) = >>=-eq-some (evaluate_all mode lookup ns) _ c h in
        evaluate_all-Among ns cats e c (combine_and-mem mode cats c q)

    evaluate_all-Among :
        (ns : Nodes) (cats : List Category)
        → evaluate_all mode lookup ns ≡ some cats
        → (c : Category) → Memᴰ c cats
        → Among c (leaf_ids_all ns)
    evaluate_all-Among nil cats h c m =
        let none_left : cats ≡ [] = cc (h) in absurd (Memᴰ.not-nil (subst (Memᴰ c) none_left m))
    evaluate_all-Among (cons n ns) cats h c m =
        let (d, e, q) = >>=-eq-some (evaluate mode lookup n) _ cats h in
        let (ds, e₁, q₁) = >>=-eq-some (evaluate_all mode lookup ns) _ cats q in
        let split : cats ≡ d ∷ ds = cc (q₁) in
        elim (Memᴰ.cases_cons (subst (Memᴰ c) split m)) [
          | inl here ↦ Among-left c (leaf_ids n) (leaf_ids_all ns) (evaluate-Among n c (rw here e))
          | inr there ↦
              Among-right c (leaf_ids n) (leaf_ids_all ns) (evaluate_all-Among ns ds e₁ c there)
        ]

-- In every mode the category of an expression is the category of a license that it names.
pub evaluate-leaf :
    (mode : ExpressionMode) (lookup : Text → Category) (n : Node) (c : Category)
    → evaluate mode lookup n ≡ some c
    → (id : Text) × Memᴰ id (leaf_ids n) × (lookup_leaf lookup id ≡ c)
evaluate-leaf = evaluate-Among
