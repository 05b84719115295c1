-- ===== src/License/Evaluate/Choices.antt =====
-- What a consumer may choose (backend/internal/license/expression.go): an expression offers
-- alternatives, and each of them binds the consumer to a list of licenses.
use bomhort.Base.{
  ℕ, Text, ◌≡◌, refl, ◌∙◌, Bool, ◌&&◌, ◌||◌, List, [], ◌∷◌, ◌++◌, map, Option, some, none, leb, ltb,
  if◌then◌else◌, any, all, any-append, arith,
}
use bomhort.License.Category.{Category, severity, strict, permissive_wins}
use bomhort.License.Node.{Node, Nodes, leaf, node_and, node_or, nil, cons, leaf_ids, leaf_ids_all}
use bomhort.License.Leaf.{lookup_leaf}
use bomhort.License.Evaluate.{
  best_of, worst_of, combine_choice, combine_conjunction, combine_and, evaluate, evaluate_all,
  ◌>>=◌,
}

-- Every way to take one list of each side.
unfoldable pub product : List (List Text) → List (List Text) → List (List Text)
product [] yss = []
product (xs ∷ xss) yss = map (λ ys. xs ++ ys) yss ++ product xss yss

unfoldable mutual
  pub alternatives : Node → List (List Text)
  alternatives (leaf id) = (id ∷ []) ∷ []
  alternatives (node_or ns) = alternatives_any ns
  alternatives (node_and ns) = alternatives_each ns

  pub alternatives_any : Nodes → List (List Text)
  alternatives_any nil = []
  alternatives_any (cons n ns) = alternatives n ++ alternatives_any ns

  pub alternatives_each : Nodes → List (List Text)
  alternatives_each nil = [] ∷ []
  alternatives_each (cons n ns) = product (alternatives n) (alternatives_each ns)

unfoldable pub at_most : ℕ → Category → Bool
at_most k c = leb (severity c) k

better : Category → Category → Category
better best c = if ltb (severity c) (severity best) then c else best

worse : Category → Category → Category
worse worst c = if ltb (severity worst) (severity c) then c else worst

better-at_most : (k : ℕ) (b c : Category) → at_most k (better b c) ≡ (at_most k b || at_most k c)
unfolding at_most better
better-at_most k b c = ground arith

worse-at_most : (k : ℕ) (b c : Category) → at_most k (worse b c) ≡ (at_most k b && at_most k c)
unfolding at_most worse
worse-at_most k b c = ground arith

best_of-at_most :
    (k : ℕ) (best : Category) (cats : List Category)
    → at_most k (best_of best cats) ≡ (at_most k best || any (at_most k) cats)
unfolding best_of better
best_of-at_most k best [] = ground arith
best_of-at_most k best (c ∷ cats) =
    best_of-at_most k (better best c) cats
    ∙ or_step (at_most k best) (at_most k c) (any (at_most k) cats) (better-at_most k best c)
  where
    or_step : {x : Bool} (y z w : Bool) → x ≡ (y || z) → (x || w) ≡ (y || (z || w))
    or_step y z w e = ground arith

worst_of-at_most :
    (k : ℕ) (worst : Category) (cats : List Category)
    → at_most k (worst_of worst cats) ≡ (at_most k worst && all (at_most k) cats)
unfolding worst_of worse
worst_of-at_most k worst [] = ground arith
worst_of-at_most k worst (c ∷ cats) =
    worst_of-at_most k (worse worst c) cats
    ∙ and_step (at_most k worst) (at_most k c) (all (at_most k) cats) (worse-at_most k worst c)
  where
    and_step : {x : Bool} (y z w : Bool) → x ≡ (y && z) → (x && w) ≡ (y && (z && w))
    and_step y z w e = ground arith

all-append : (p : Text → Bool) (xs ys : List Text) → all p (xs ++ ys) ≡ (all p xs && all p ys)
all-append p [] ys = refl
all-append p (x ∷ xs) ys = ground (arith, all-append p xs ys)

any-map-append :
    (p : Text → Bool) (xs : List Text) (yss : List (List Text))
    → any (all p) (map (λ ys. xs ++ ys) yss) ≡ (all p xs && any (all p) yss)
any-map-append p xs [] = ground arith
any-map-append p xs (ys ∷ yss) = ground (arith, all-append p xs ys, any-map-append p xs yss)

any-product :
    (p : Text → Bool) (xss yss : List (List Text))
    → any (all p) (product xss yss) ≡ (any (all p) xss && any (all p) yss)
unfolding product
any-product p [] yss = refl
any-product p (xs ∷ xss) yss =
    any-append (all p) (map (λ ys. xs ++ ys) yss) (product xss yss)
    ∙ ground (arith, any-map-append p xs yss, any-product p xss yss)

combine_choice-at_most :
    (k : ℕ) (cats : List Category) (c : Category)
    → combine_choice cats ≡ some c
    → at_most k c ≡ any (at_most k) cats
unfolding combine_choice
combine_choice-at_most k [] c h = cc
combine_choice-at_most k (d ∷ cats) c h = ground (arith, best_of-at_most k d cats)

combine_conjunction-at_most :
    (k : ℕ) (cats : List Category) (c : Category)
    → combine_conjunction cats ≡ some c
    → at_most k c ≡ all (at_most k) cats
unfolding combine_conjunction
combine_conjunction-at_most k [] c h = cc
combine_conjunction-at_most k (d ∷ cats) c h = ground (arith, worst_of-at_most k d cats)

pub >>=-eq-some :
    {A B : Type 0} (m : Option A) (f : A → Option B) (b : B)
    → (m >>= f) ≡ some b
    → (a : A) × (m ≡ some a) × (f a ≡ some b)
>>=-eq-some none f b h = cc
>>=-eq-some (some a) f b h = (a, refl, h)

module _ (lookup : Text → Category) (k : ℕ) where
  abbrev fits : Text → Bool
  fits id = at_most k (lookup_leaf lookup id)

  cons-at_most :
      (c : Category) (ds cats : List Category) (xss yss zss : List (List Text))
      → some (c ∷ ds) ≡ some cats
      → at_most k c ≡ any (all fits) xss
      → (any (at_most k) ds ≡ any (all fits) yss) × (all (at_most k) ds ≡ any (all fits) zss)
      → (any (at_most k) cats ≡ any (all fits) (xss ++ yss))
        × (all (at_most k) cats ≡ any (all fits) (product xss zss))
  cons-at_most c ds cats xss yss zss e h g =
      ground (arith, any-append (all fits) xss yss, any-product fits xss zss)

  mutual
    unfolding evaluate alternatives combine_and

    evaluate-at_most :
        (n : Node) (c : Category)
        → evaluate strict lookup n ≡ some c
        → at_most k c ≡ any (all fits) (alternatives n)
    evaluate-at_most (leaf id) c h = ground arith
    evaluate-at_most (node_or ns) c h =
        let (cats, e, q) = >>=-eq-some (evaluate_all strict lookup ns) _ c h in
        combine_choice-at_most k cats c q ∙ (evaluate_all-at_most ns cats e).0
    evaluate-at_most (node_and ns) c h =
        let (cats, e, q) = >>=-eq-some (evaluate_all strict lookup ns) _ c h in
        combine_conjunction-at_most k cats c q ∙ (evaluate_all-at_most ns cats e).1

    evaluate_all-at_most :
        (ns : Nodes) (cats : List Category)
        → evaluate_all strict lookup ns ≡ some cats
        → (any (at_most k) cats ≡ any (all fits) (alternatives_any ns))
          × (all (at_most k) cats ≡ any (all fits) (alternatives_each ns))
    evaluate_all-at_most nil cats h = ground arith
    evaluate_all-at_most (cons n ns) cats h =
        let (c, e, q) = >>=-eq-some (evaluate strict lookup n) _ cats h in
        let (ds, e₁, q₁) = >>=-eq-some (evaluate_all strict lookup ns) _ cats q in
        cons-at_most c ds cats (alternatives n) (alternatives_any ns) (alternatives_each ns) q₁
          (evaluate-at_most n c e) (evaluate_all-at_most ns ds e₁)

  any-cons :
      (c : Category) (ds cats : List Category) (xs ys : List Text)
      → some (c ∷ ds) ≡ some cats
      → at_most k c ≡ any fits xs
      → any (at_most k) ds ≡ any fits ys
      → any (at_most k) cats ≡ any fits (xs ++ ys)
  any-cons c ds cats xs ys e h g = ground (arith, any-append fits xs ys)

  mutual
    unfolding evaluate leaf_ids combine_and

    evaluate-any :
        (n : Node) (c : Category)
        → evaluate permissive_wins lookup n ≡ some c
        → at_most k c ≡ any fits (leaf_ids n)
    evaluate-any (leaf id) c h = ground arith
    evaluate-any (node_or ns) c h =
        let (cats, e, q) = >>=-eq-some (evaluate_all permissive_wins lookup ns) _ c h in
        combine_choice-at_most k cats c q ∙ evaluate_all-any ns cats e
    evaluate-any (node_and ns) c h =
        let (cats, e, q) = >>=-eq-some (evaluate_all permissive_wins lookup ns) _ c h in
        combine_choice-at_most k cats c q ∙ evaluate_all-any ns cats e

    evaluate_all-any :
        (ns : Nodes) (cats : List Category)
        → evaluate_all permissive_wins lookup ns ≡ some cats
        → any (at_most k) cats ≡ any fits (leaf_ids_all ns)
    evaluate_all-any nil cats h = ground arith
    evaluate_all-any (cons n ns) cats h =
        let (c, e, q) = >>=-eq-some (evaluate permissive_wins lookup n) _ cats h in
        let (ds, e₁, q₁) = >>=-eq-some (evaluate_all permissive_wins lookup ns) _ cats q in
        any-cons c ds cats (leaf_ids n) (leaf_ids_all ns) q₁ (evaluate-any n c e)
          (evaluate_all-any ns ds e₁)

-- In strict mode an expression is at most as severe as k exactly if one of its alternatives binds
-- the consumer to licenses at most as severe as k only.
pub evaluate_strict :
    (lookup : Text → Category) (k : ℕ) (n : Node) (c : Category)
    → evaluate strict lookup n ≡ some c
    → at_most k c ≡ any (all (λ id. at_most k (lookup_leaf lookup id))) (alternatives n)
evaluate_strict = evaluate-at_most

-- In permissive-wins mode an expression is at most as severe as k exactly if one of the licenses that
-- it names is.
pub evaluate_permissive_wins :
    (lookup : Text → Category) (k : ℕ) (n : Node) (c : Category)
    → evaluate permissive_wins lookup n ≡ some c
    → at_most k c ≡ any (λ id. at_most k (lookup_leaf lookup id)) (leaf_ids n)
evaluate_permissive_wins = evaluate-any
