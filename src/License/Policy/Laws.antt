-- ===== src/License/Policy/Laws.antt =====
-- What the policy decides (backend/internal/license/checker.go).
use mathlib.Core.Path.{fun_ext, ap₂}
use bomhort.Base.{
  subst, Text, ◌≡◌, ◌≢◌, ◌↔◌, inl, inr, refl, sym, ◌∙◌, Bool, true, false, ◌||◌, Option, List, [],
  ◌∷◌, ◌++◌, ◌==◌, ==_iff, contains, contains_iff, any, all, any-elim, any-intro, trim_space, arith,
  Bool-cases, Option-cases, Bool-eq_of_iff, Memᴰ,
}
use bomhort.License.Category.{
  Category, permissive, copyleft, unknown, ExpressionMode, off, strict, permissive_wins,
}
use bomhort.License.Token.{tokenize, has_operator}
use bomhort.License.Result.{Result, ok, err, out_of_fuel}
use bomhort.License.Node.{Node}
use bomhort.License.Parse.{parse_expression}
use bomhort.License.Leaf.{is_no_license_info, lookup_leaf, lookup_leaf-listed}
use bomhort.License.Evaluate.{evaluate}
use bomhort.License.Evaluate.Total.{evaluate-total}
use bomhort.License.Evaluate.Leaves.{evaluate-leaf}
use bomhort.License.Evaluate.Choices.{at_most, alternatives, evaluate_strict}
use bomhort.License.Policy.{
  Policy, PolicyFile, add_id, add_ids, build_policy, extends, categorize_single, fold_tree,
  categorize_unlisted, categorize_with, categorize, refused, LoadError, load_policy,
}

contains-concat :
    (ids : List Text) (id t : Text) → contains (ids ++ id ∷ []) t ≡ (contains ids t || (id == t))
unfolding contains
contains-concat [] id t = ground arith
contains-concat (x ∷ ids) id t = ground (arith, contains-concat ids id t)

contains-add_id :
    (ids : List Text) (id t : Text) → contains (add_id ids id) t ≡ (contains ids t || (id == t))
unfolding add_id
contains-add_id ids id t = elim (Bool-cases (contains ids id)) [
  | inl e ↦ rw e (
      absorb (contains ids t) (id == t)
        (λ s. subst (λ u. contains ids u ≡ true) ((==_iff id t).0 s) e))
  | inr e ↦ rw e (contains-concat ids id t)
]
  where
    absorb : (a b : Bool) → (b ≡ true → a ≡ true) → a ≡ (a || b)
    absorb true b h = refl
    absorb false true h = h refl
    absorb false false h = refl

contains-add_ids :
    (set ids : List Text) (t : Text)
    → contains (add_ids set ids) t ≡ (contains set t || contains ids t)
unfolding add_ids contains
contains-add_ids set [] t = ground arith
contains-add_ids set (id ∷ ids) t =
    contains-add_ids (add_id set id) ids t ∙ regroup _ _ _ _ (contains-add_id set id t)
  where
    regroup : (a b c d : Bool) → a ≡ (b || c) → (a || d) ≡ (b || (c || d))
    regroup a b c d e = ground arith

-- Two policies whose sets hold the same identifiers and whose modes agree.
pub record SamePolicy (p q : Policy) : Type 0 where
  pub same_permissive : (id : Text) → contains p.permissive_set id ≡ contains q.permissive_set id
  pub same_copyleft : (id : Text) → contains p.copyleft_set id ≡ contains q.copyleft_set id
  pub same_mode : p.mode ≡ q.mode

any-same :
    (f : Text → Bool) (xs ys : List Text)
    → ((id : Text) → contains xs id ≡ contains ys id)
    → any f xs ≡ any f ys
any-same f xs ys same = Bool-eq_of_iff _ _ (move xs ys same, move ys xs (λ id. sym (same id)))
  where
    move :
        (us vs : List Text)
        → ((id : Text) → contains us id ≡ contains vs id)
        → any f us ≡ true
        → any f vs ≡ true
    move us vs eq h =
        let (x, m, e) = any-elim f us h in
        any-intro f vs x ((contains_iff vs x).0 (sym (eq x) ∙ (contains_iff us x).1 m)) e

categorize_single-same :
    (p q : Policy) → SamePolicy p q → (id : Text) → categorize_single p id ≡ categorize_single q id
unfolding categorize_single
categorize_single-same p q s id = simp (
  s.same_permissive id,
  s.same_copyleft id,
  any-same (extends id) p.permissive_set q.permissive_set s.same_permissive,
  any-same (extends id) p.copyleft_set q.copyleft_set s.same_copyleft,
)

build_policy-same :
    (ps qs cs ds : List Text) (mode : ExpressionMode)
    → ((id : Text) → Memᴰ id ps ↔ Memᴰ id qs)
    → ((id : Text) → Memᴰ id cs ↔ Memᴰ id ds)
    → SamePolicy (build_policy ps cs mode) (build_policy qs ds mode)
unfolding build_policy contains
build_policy-same ps qs cs ds mode hp hc = record {
  same_permissive = same ps qs hp;
  same_copyleft = same cs ds hc;
  same_mode = refl;
}
  where
    same :
        (xs ys : List Text)
        → ((id : Text) → Memᴰ id xs ↔ Memᴰ id ys)
        → (id : Text) → contains (add_ids [] xs) id ≡ contains (add_ids [] ys) id
    same xs ys h id =
        contains-add_ids [] xs id
        ∙ Bool-eq_of_iff _ _ (
          λ a. (contains_iff ys id).1 ((h id).0 ((contains_iff xs id).0 a)),
          λ a. (contains_iff xs id).1 ((h id).1 ((contains_iff ys id).0 a)),
        )
        ∙ sym (contains-add_ids [] ys id)

-- Policies built from lists with the same identifiers, in any order and however often repeated,
-- give every license the same category, whatever `Normalize` does.
pub categorize-build_policy :
    (normalize : Text → Text) (ps qs cs ds : List Text) (mode : ExpressionMode)
    → ((id : Text) → Memᴰ id ps ↔ Memᴰ id qs)
    → ((id : Text) → Memᴰ id cs ↔ Memᴰ id ds)
    → (license_id : Text)
    → categorize normalize (build_policy ps cs mode) license_id
      ≡ categorize normalize (build_policy qs ds mode) license_id
unfolding categorize
categorize-build_policy normalize ps qs cs ds mode hp hc license_id =
    let same = build_policy-same ps qs cs ds mode hp hc in
    let id = normalize (trim_space license_id) in
    ap₂ (λ single m. categorize_with single m id) (fun_ext (categorize_single-same _ _ same))
      same.same_mode

-- A lookup that never answers permissive.
abbrev NeverPermissive : (Text → Category) → Type 0
NeverPermissive single = (id : Text) → single id ≢ permissive

lookup_leaf-NeverPermissive :
    (single : Text → Category) → NeverPermissive single → NeverPermissive (lookup_leaf single)
lookup_leaf-NeverPermissive single h id e =
    let (s, m, q) = (lookup_leaf-listed single id).0 e in h s q

fold_tree-NeverPermissive :
    (single : Text → Category) (mode : ExpressionMode) (r : Result Node)
    → NeverPermissive single
    → fold_tree single mode r ≢ permissive
unfolding fold_tree
fold_tree-NeverPermissive single mode (ok tree) h q =
    elim (Option-cases (evaluate mode single tree)) [
      | inl e ↦ ground arith
      | inr (c, e) ↦
          let same : c ≡ permissive = ground arith in
          let (id, m, l) = evaluate-leaf mode single tree c e in
          lookup_leaf-NeverPermissive single h id (l ∙ same)
    ]
fold_tree-NeverPermissive single mode (err e) h q = cc
fold_tree-NeverPermissive single mode out_of_fuel h q = cc

categorize_unlisted-NeverPermissive :
    (single : Text → Category) (mode : ExpressionMode) (id : Text)
    → NeverPermissive single
    → categorize_unlisted single mode id ≢ permissive
unfolding categorize_unlisted
categorize_unlisted-NeverPermissive single off id h = λ q. cc
categorize_unlisted-NeverPermissive single strict id h = ground (
  arith,
  fold_tree-NeverPermissive single strict (parse_expression id) h,
  lookup_leaf-NeverPermissive single h id,
)
categorize_unlisted-NeverPermissive single permissive_wins id h = ground (
  arith,
  fold_tree-NeverPermissive single permissive_wins (parse_expression id) h,
  lookup_leaf-NeverPermissive single h id,
)

categorize_single-NeverPermissive :
    (copyleft_ids : List Text) (mode : ExpressionMode)
    → NeverPermissive (categorize_single (build_policy [] copyleft_ids mode))
unfolding categorize_single build_policy add_ids contains
categorize_single-NeverPermissive copyleft_ids mode id = ground arith

categorize_with-NeverPermissive :
    (single : Text → Category) (mode : ExpressionMode)
    → NeverPermissive single
    → NeverPermissive (categorize_with single mode)
unfolding categorize_with
categorize_with-NeverPermissive single mode h id =
    ground (arith, h id, categorize_unlisted-NeverPermissive single mode id h)

-- Under a policy that lists no permissive license nothing is permissive: neither a modifier, nor an
-- expression in any mode, nor whatever `Normalize` makes of a text.
pub categorize-ne-permissive :
    (normalize : Text → Text) (copyleft_ids : List Text) (mode : ExpressionMode) (license_id : Text)
    → categorize normalize (build_policy [] copyleft_ids mode) license_id ≢ permissive
unfolding categorize
categorize-ne-permissive normalize copyleft_ids mode license_id =
    categorize_with-NeverPermissive (categorize_single (build_policy [] copyleft_ids mode))
      (build_policy [] copyleft_ids mode).mode (categorize_single-NeverPermissive copyleft_ids mode)
      (normalize (trim_space license_id))

-- no more than unapproved, or copyleft
at_most_2-copyleft : (c : Category) → (c ≡ copyleft) ↔ (at_most 2 c ≡ false)
unfolding at_most
at_most_2-copyleft c = ground arith

-- In strict mode a text with an operator that parses as an expression, that does not stand for missing
-- license information and that the policy does not list as a whole, is copyleft exactly if each
-- alternative of the expression binds the consumer to a copyleft license.
pub categorize_with-copyleft :
    (single : Text → Category) (id : Text) (tree : Node)
    → is_no_license_info id ≡ false
    → single id ≡ unknown
    → has_operator (tokenize id) ≡ true
    → parse_expression id ≡ ok tree
    → (categorize_with single strict id ≡ copyleft)
      ↔ (any (all (λ l. at_most 2 (lookup_leaf single l))) (alternatives tree) ≡ false)
unfolding categorize_with categorize_unlisted fold_tree
categorize_with-copyleft single id tree info unlisted compound parsed =
    let (c, e) = evaluate-total strict single id tree parsed in
    let fold = evaluate_strict single 2 tree c e in
    rw (info, unlisted, compound, parsed, fold_tree, e) (ground (arith, at_most_2-copyleft c))

-- A policy file that cannot be read, decoded or given a mode leaves the active policy as it was.
pub load_policy-refused :
    {Bytes : Type 0} (read_file : Text → Option Bytes) (unmarshal : Bytes → Option PolicyFile)
    (path : Text) (active : Policy) (why : LoadError)
    → (load_policy read_file unmarshal path active).1 ≡ refused why
    → (load_policy read_file unmarshal path active).0 ≡ active
unfolding load_policy
load_policy-refused read_file unmarshal path active why h = ground arith
