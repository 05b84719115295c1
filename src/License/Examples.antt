-- ===== src/License/Examples.antt =====
-- The license components (backend/internal/license) on concrete policies, expressions and packages.
use bomhort.License.Policy.Defaults.{default_copyleft, default_permissive, default_policy}
use bomhort.License.Exceptions.Load.{
  load_exceptions_with_fallback-first, not_usable, broken, load_exceptions_with_fallback, absent,
  Attempt,
}
use bomhort.License.Source.{reason_not_published, with_modifier_idem, with_modifier}
use bomhort.License.Cache.{
  load_value, load-store_result, preload_cache-NoEmpty, store_result, preload_cache, load, NoEmpty,
}
use bomhort.License.Exceptions.Exact.{is_exempt_iff}
use bomhort.License.Check.Recheck.{reevaluate-reevaluate, reevaluate-check_with_exceptions}
use bomhort.License.Check.Outcome.{same_multiset_iff}
use bomhort.License.Exceptions.Covered.{Covered, NoNul}
use bomhort.License.Check.{Result, reevaluate, check_with_exceptions, same_outcome, same_multiset}
use bomhort.License.Check.Closed.{
  check_with_exceptions-closed, packages_under, closed_result, result_for,
}
use bomhort.License.Exceptions.{build_index, is_exempt, ExceptionsFile, Exception, BlanketException}
use mathlib.Core.List.{Perm}
use mathlib.Core.List.Memᴰ
use bomhort.License.Policy.Laws.{
  categorize_with-copyleft, load_policy-refused, categorize-ne-permissive, categorize-build_policy,
}
use bomhort.License.Parse.Complete.{parse_tokens_iff}
use bomhort.License.Evaluate.Total.{evaluate-total}
use bomhort.License.Evaluate.Leaves.{evaluate-leaf}
use bomhort.License.Parse.Sound.{parse_tokens-ne-out_of_fuel}
use bomhort.License.Leaf.{resolve_leaf, lookup_leaf, is_no_license_info}
use bomhort.License.Evaluate.{evaluate}
use bomhort.License.Evaluate.Choices.{
  evaluate_strict, alternatives, evaluate_permissive_wins, at_most,
}
use bomhort.License.Policy.{
  categorize_single, unreadable, refused, build_policy, load_policy, categorize_with, categorize,
  PolicyFile,
}
use bomhort.License.Parse.Grammar.{OrExpr}
use bomhort.Base.{
  ◌++◌, ◌⊎◌, ◌⊎◌, lookup, is_empty, inr, subst, inl, map, all, any, ◌≢◌, ◌↔◌, Memᴰ, Text, codes,
  ◌==◌, if◌then◌else◌, List, [], ◌∷◌, ◌≡◌, refl, some, none, true, false, Option, Bool,
}
use bomhort.License.Category.{
  unapproved, is_permissive, Category, permissive, copyleft, unknown, strict, permissive_wins,
}
use bomhort.License.Node.{leaf_ids, Node, leaf, node_or, node_and, cons, nil}
use bomhort.License.Token.{
  tok_with, has_operator, Token, tok_id, tok_or, tok_and, tok_lparen, tok_rparen, tokenize,
}
use bomhort.License.Token.Lexical.{IsLexical, tokenize-IsLexical}
use bomhort.License.Token.RoundTrip.{render, compact, tokenize-render}
use bomhort.License.Parse.{parse_tokens, parse_expression}
use bomhort.License.Result.{with_after_compound, err, out_of_fuel, ok}

abbrev mit : Text
mit = codes "MIT"

abbrev gpl : Text
gpl = codes "GPL-2.0-only"

abbrev apache : Text
apache = codes "Apache-2.0"

abbrev listed : Text → Category
listed id = if id == mit then permissive else (if id == gpl then copyleft else unknown)

-- MIT OR (Apache-2.0 AND GPL-2.0-only)
abbrev choice : Text
choice = codes "MIT or (Apache-2.0 AND GPL-2.0-only)"

abbrev choice_tokens : List Token
choice_tokens =
    tok_id mit ∷ tok_or ∷ tok_lparen ∷ tok_id apache ∷ tok_and ∷ tok_id gpl ∷ tok_rparen ∷ []

abbrev choice_tree : Node
choice_tree =
    node_or (cons (leaf mit) (cons (node_and (cons (leaf apache) (cons (leaf gpl) nil))) nil))

choice-tokens : tokenize choice ≡ choice_tokens
unfolding tokenize
choice-tokens = refl

choice-tree : parse_expression choice ≡ ok choice_tree
unfolding parse_expression parse_tokens tokenize bomhort.License.Parse.parse_or
    bomhort.License.Parse.with_clause bomhort.License.Parse.close bomhort.License.Parse.finish
    bomhort.License.Parse.join_or bomhort.License.Parse.join_and
choice-tree = refl

choice-value : evaluate strict listed choice_tree ≡ some permissive
unfolding evaluate bomhort.License.Evaluate.combine_and lookup_leaf resolve_leaf ◌==◌
    bomhort.Base.cut_before bomhort.Base.has_suffix bomhort.License.Leaf.lookup_deprecated
    is_no_license_info
choice-value = refl

choice-value-wins : evaluate permissive_wins listed choice_tree ≡ some permissive
unfolding evaluate bomhort.License.Evaluate.combine_and lookup_leaf resolve_leaf ◌==◌
    bomhort.Base.cut_before bomhort.Base.has_suffix bomhort.License.Leaf.lookup_deprecated
    is_no_license_info
choice-value-wins = refl

-- Every derivation that the witnesses need.
choice-derived : OrExpr choice_tokens choice_tree
unfolding parse_tokens bomhort.License.Parse.parse_or bomhort.License.Parse.with_clause
    bomhort.License.Parse.close bomhort.License.Parse.finish bomhort.License.Parse.join_or
    bomhort.License.Parse.join_and
choice-derived = (parse_tokens_iff choice_tokens choice_tree).0 choice-parsed
  where
    choice-parsed : parse_tokens choice_tokens ≡ ok choice_tree
    choice-parsed = refl

choice_tokens-IsLexical : IsLexical choice_tokens
choice_tokens-IsLexical = subst IsLexical choice-tokens (tokenize-IsLexical choice)

tokenize-render_example :
    (tokenize (render choice_tokens) ≡ choice_tokens)
    × (tokenize (compact choice_tokens) ≡ choice_tokens)
tokenize-render_example = tokenize-render choice_tokens choice_tokens-IsLexical

-- The comment on the parser allows this one.
compound-with :
    parse_tokens
      (tok_lparen ∷ tok_id mit ∷ tok_or ∷ tok_id gpl ∷ tok_rparen ∷ tok_with ∷ tok_id apache ∷ [])
    ≡ err with_after_compound
unfolding parse_tokens bomhort.License.Parse.parse_or bomhort.License.Parse.with_clause
    bomhort.License.Parse.close bomhort.License.Parse.finish bomhort.License.Parse.join_or
    bomhort.License.Parse.join_and
compound-with = refl

-- An exception keeps the deprecated spelling of a license from being found.
deprecated-copyleft : lookup_leaf listed (codes "GPL-2.0") ≡ copyleft
unfolding lookup_leaf resolve_leaf ◌==◌ bomhort.Base.cut_before bomhort.Base.has_suffix
    bomhort.License.Leaf.lookup_deprecated is_no_license_info
deprecated-copyleft = refl

deprecated-with : lookup_leaf listed (codes "GPL-2.0 WITH Classpath-exception-2.0") ≡ unapproved
unfolding lookup_leaf resolve_leaf ◌==◌ bomhort.Base.cut_before bomhort.Base.has_suffix
    bomhort.License.Leaf.lookup_deprecated is_no_license_info
deprecated-with = refl

parse_tokens_iff_example :
    (parse_tokens choice_tokens ≡ ok choice_tree) ↔ OrExpr choice_tokens choice_tree
parse_tokens_iff_example = parse_tokens_iff choice_tokens choice_tree

parse_tokens-ne-out_of_fuel_example : parse_tokens choice_tokens ≢ out_of_fuel
parse_tokens-ne-out_of_fuel_example = parse_tokens-ne-out_of_fuel choice_tokens

evaluate-total_example : (c : Category) × (evaluate strict listed choice_tree ≡ some c)
evaluate-total_example = evaluate-total strict listed choice choice_tree choice-tree

evaluate-leaf_example :
    (id : Text) × Memᴰ id (leaf_ids choice_tree) × (lookup_leaf listed id ≡ permissive)
evaluate-leaf_example = evaluate-leaf strict listed choice_tree permissive choice-value

evaluate_strict_example :
    at_most 0 permissive
    ≡ any (all (λ id. at_most 0 (lookup_leaf listed id))) (alternatives choice_tree)
evaluate_strict_example = evaluate_strict listed 0 choice_tree permissive choice-value

evaluate_permissive_wins_example :
    at_most 0 permissive ≡ any (λ id. at_most 0 (lookup_leaf listed id)) (leaf_ids choice_tree)
evaluate_permissive_wins_example =
    evaluate_permissive_wins listed 0 choice_tree permissive choice-value-wins

choice-listed : listed choice ≡ unknown
unfolding ◌==◌
choice-listed = refl

choice-is_no_license_info : is_no_license_info choice ≡ false
unfolding is_no_license_info
choice-is_no_license_info = refl

choice-has_operator : has_operator (tokenize choice) ≡ true
unfolding has_operator tokenize
choice-has_operator = refl

categorize_with-copyleft_example :
    (categorize_with listed strict choice ≡ copyleft)
    ↔ (any (all (λ l. at_most 2 (lookup_leaf listed l))) (alternatives choice_tree) ≡ false)
categorize_with-copyleft_example =
    categorize_with-copyleft listed choice choice_tree choice-is_no_license_info choice-listed
      choice-has_operator choice-tree

categorize-ne-permissive_example :
    categorize (λ s. s) (build_policy [] (gpl ∷ []) strict) choice ≢ permissive
categorize-ne-permissive_example = categorize-ne-permissive (λ s. s) (gpl ∷ []) strict choice

same-ids : (id : Text) → Memᴰ id (mit ∷ []) ↔ Memᴰ id (mit ∷ mit ∷ [])
same-ids id = (Memᴰ.tail, λ m. elim (Memᴰ.cases_cons m) [ inl e ↦ Memᴰ.head e | inr r ↦ r ])

same-gpl : (id : Text) → Memᴰ id (gpl ∷ []) ↔ Memᴰ id (gpl ∷ [])
same-gpl id = (λ m. m, λ m. m)

categorize-build_policy_example :
    categorize (λ s. s) (build_policy (mit ∷ []) (gpl ∷ []) strict) choice
    ≡ categorize (λ s. s) (build_policy (mit ∷ mit ∷ []) (gpl ∷ []) strict) choice
categorize-build_policy_example =
    categorize-build_policy (λ s. s) (mit ∷ []) (mit ∷ mit ∷ []) (gpl ∷ []) (gpl ∷ []) strict
      same-ids same-gpl choice

abbrev no_file : Text → Option Text
no_file path = none

abbrev no_json : Text → Option PolicyFile
no_json content = none

unread :
    (load_policy no_file no_json (codes "policy.json") (build_policy [] [] strict)).1
    ≡ refused unreadable
unfolding load_policy
unread = refl

load_policy-refused_example :
    (load_policy no_file no_json (codes "policy.json") (build_policy [] [] strict)).0
    ≡ build_policy [] [] strict
load_policy-refused_example =
    load_policy-refused no_file no_json (codes "policy.json") (build_policy [] [] strict) unreadable
      unread

-- one package under one license, and every package under the Apache license
abbrev granted : Exception
granted = record {
  id = codes "E1";
  package_name = codes "github.com/acme/lib";
  license = gpl;
  project = [];
  status = codes "Approved";
  approved_date = [];
  scope = [];
  results = [];
  issue_url = [];
  package_url = [];
  comment = codes "build tool";
}

abbrev blanket : BlanketException
blanket = record {
  id = codes "B1";
  license = apache;
  status = codes "allowlisted";
  approved_date = [];
  scope = [];
  results = [];
  issue_url = [];
  package_url = [];
  comment = codes "reviewed";
}

abbrev sample_file : ExceptionsFile
sample_file = record {
  version = codes "1";
  last_updated = [];
  description = [];
  blanket_exceptions = blanket ∷ [];
  exceptions = granted ∷ [];
}

granted-NoNul : (exc : Exception) → Memᴰ exc sample_file.exceptions → NoNul exc.package_name
granted-NoNul exc m = elim (Memᴰ.cases_cons m) [
  | inl e ↦ rw e refl
  | inr r ↦ absurd (Memᴰ.not-nil r)
]

is_exempt_iff_example :
    ((is_exempt (some (build_index sample_file)) (codes "github.com/acme/lib") gpl []).0 ≡ true)
    ↔ Covered sample_file (codes "github.com/acme/lib") gpl []
is_exempt_iff_example =
    is_exempt_iff sample_file (codes "github.com/acme/lib") gpl [] refl granted-NoNul

exempt-sample :
    ((is_exempt (some (build_index sample_file)) (codes "github.com/acme/lib") gpl []).0 ≡ true)
    × (is_exempt (some (build_index sample_file)) (codes "other") gpl [] ≡ (false, []))
    × ((is_exempt (some (build_index sample_file)) [] (codes "Apache-2.0-custom") []).0 ≡ true)
unfolding is_exempt bomhort.License.Exceptions.exemption
    bomhort.License.Exceptions.blanket_exemption bomhort.Base.lookup build_index
    bomhort.License.Exceptions.add_exceptions bomhort.License.Exceptions.add_exception
    bomhort.License.Exceptions.status_is_approved ◌==◌ bomhort.Base.to_lower bomhort.Base.trim_space
    bomhort.License.Exceptions.add_blankets bomhort.License.Exceptions.add_blanket_ids
    bomhort.License.Exceptions.split_licenses bomhort.License.Exceptions.ids_of parse_expression
    parse_tokens bomhort.Base.append_at bomhort.Base.alter bomhort.Base.find bomhort.Base.insert
    bomhort.Base.slice_at bomhort.Base.contains bomhort.Base.fields bomhort.Base.fields_from
    bomhort.Base.has_prefix bomhort.Base.has_suffix bomhort.Base.is_space bomhort.Base.rune_lower
    bomhort.Base.rune_upper bomhort.Base.to_upper bomhort.Base.trim_left
    bomhort.License.Exceptions.add_pairs bomhort.License.Exceptions.blanket_base
    bomhort.License.Exceptions.is_all_projects_phrase bomhort.License.Exceptions.is_path_suffix
    bomhort.License.Exceptions.matches_project bomhort.License.Exceptions.rule_exemption leaf_ids
    bomhort.License.Parse.attach bomhort.License.Parse.close bomhort.License.Parse.finish
    bomhort.License.Parse.join_and bomhort.License.Parse.join_or bomhort.License.Parse.parse_or
    bomhort.License.Parse.with_clause bomhort.License.Token.classify bomhort.License.Token.flush
    bomhort.License.Token.is_blank bomhort.License.Token.push bomhort.License.Token.scan
    bomhort.License.Token.scan_all tokenize
exempt-sample = (refl, refl, refl)

abbrev names : List Text
names = codes "github.com/acme/lib" ∷ codes "tmp.a1B2c3" ∷ codes "other" ∷ []

abbrev lics : List Text
lics = gpl ∷ gpl ∷ gpl ∷ []

check_with_exceptions-closed_example :
    result_for gpl (check_with_exceptions listed (some (build_index sample_file)) [] names lics)
    ≡ closed_result listed (some (build_index sample_file)) [] gpl (packages_under gpl names lics)
check_with_exceptions-closed_example =
    check_with_exceptions-closed listed (some (build_index sample_file)) [] gpl names lics

-- without exceptions both packages violate the policy
abbrev violating : Result
violating = record {
  license_id = gpl;
  category = copyleft;
  package_count = 2;
  non_compliant_packages = codes "github.com/acme/lib" ∷ codes "other" ∷ [];
  exempted_packages = [];
  exemption_reason = [];
}

run-violating : result_for gpl (check_with_exceptions listed none [] names lics) ≡ some violating
unfolding result_for bomhort.Base.find check_with_exceptions bomhort.License.Check.check_all
    bomhort.License.Check.check_package bomhort.License.Check.is_go_temp_name
    bomhort.Base.strip_prefix bomhort.Base.insert ◌==◌ bomhort.License.Check.result_of
    bomhort.License.Check.count_package bomhort.License.Check.entry_of bomhort.Base.lookup
    bomhort.License.Check.fresh_entry is_exempt bomhort.License.Exceptions.exemption
    bomhort.Base.alter
run-violating = refl

reevaluate-check_with_exceptions_example :
    (s : Result) × (result_for gpl
        (check_with_exceptions listed (some (build_index sample_file)) (codes "p" ∷ []) names lics)
      ≡ some s)
    × (same_outcome (reevaluate violating (some (build_index sample_file)) (codes "p")) s ≡ true)
    × (s.category ≡ violating.category)
    × (s.package_count ≡ violating.package_count)
unfolding ◌==◌
reevaluate-check_with_exceptions_example =
    reevaluate-check_with_exceptions listed none (some (build_index sample_file)) [] (codes "p") gpl
      names lics violating refl run-violating

reevaluate-reevaluate_example :
    same_outcome
      (reevaluate
        (reevaluate violating (some (build_index sample_file)) (codes "p"))
        none
        (codes "p"))
      (reevaluate violating none (codes "p"))
    ≡ true
reevaluate-reevaluate_example =
    reevaluate-reevaluate violating (some (build_index sample_file)) none (codes "p") refl

same_multiset_iff_example :
    (same_multiset names (codes "other" ∷ names) ≡ true) ↔ Perm names (codes "other" ∷ names)
same_multiset_iff_example = same_multiset_iff names (codes "other" ∷ names)

with_modifier_idem_example :
    with_modifier (with_modifier (codes "npm") (codes "latest")) (codes "latest")
    ≡ with_modifier (codes "npm") (codes "latest")
with_modifier_idem_example = with_modifier_idem (codes "npm") (codes "latest") refl

modified :
    with_modifier (with_modifier (codes "npm") (codes "latest")) (codes "normalized")
    ≡ codes "npm+latest+normalized"
unfolding with_modifier bomhort.Base.contains bomhort.Base.split_on bomhort.Base.extend_first ◌==◌
modified = refl

load-store_result_example :
    load (codes "npm/left-pad") (store_result (codes "npm/left-pad") [] reason_not_published [])
    ≡ some ([], reason_not_published)
unfolding bomhort.Base.has_prefix ◌==◌
load-store_result_example =
    load-store_result (codes "npm/left-pad") (codes "npm/left-pad") [] reason_not_published [] refl

no_entries-NoEmpty : NoEmpty []
unfolding load_value lookup
no_entries-NoEmpty key e = cc

preload_cache-NoEmpty_example : NoEmpty (preload_cache ((codes "a", []) ∷ (codes "b", mit) ∷ []) [])
preload_cache-NoEmpty_example =
    preload_cache-NoEmpty ((codes "a", []) ∷ (codes "b", mit) ∷ []) [] no_entries-NoEmpty

-- The built-in lists are classified as they are listed.
defaults-classified :
    (all (λ id. is_permissive (categorize_single default_policy id)) default_permissive ≡ true)
    × (any (λ id. is_permissive (categorize_single default_policy id)) default_copyleft ≡ false)
unfolding categorize_single bomhort.Base.contains default_policy build_policy ◌==◌
defaults-classified = (refl, refl)

abbrev disk : Text → Attempt
disk path = if path == codes "remote.json" then broken else absent

abbrev earlier : List Text
earlier = [] ∷ codes "missing.json" ∷ []

earlier-absent : (p : Text) → Memᴰ p earlier → (p ≡ []) ⊎ (disk p ≡ absent)
unfolding ◌==◌
earlier-absent p m = elim (Memᴰ.cases_cons m) [
  | inl e ↦ inl e
  | inr r ↦ elim (Memᴰ.cases_cons r) [ inl e ↦ inr (rw e refl) | inr n ↦ absurd (Memᴰ.not-nil n) ]
]

named-remote : codes "remote.json" ≢ []
named-remote e = cc

broken-remote : disk (codes "remote.json") ≢ absent
unfolding ◌==◌
broken-remote e = let apart : broken ≡ absent = e in cc

load_exceptions_with_fallback-first_example :
    load_exceptions_with_fallback disk (earlier ++ codes "remote.json" ∷ codes "local.json" ∷ [])
    ≡ not_usable
unfolding ◌==◌
load_exceptions_with_fallback-first_example =
    load_exceptions_with_fallback-first disk earlier (codes "remote.json") (codes "local.json" ∷ [])
      earlier-absent named-remote broken-remote
