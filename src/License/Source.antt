-- ===== src/License/Source.antt =====
-- License provenance strings (backend/internal/license/source.go).
use bomhort.Base.{
  ◌||◌, ◌||◌, ℕ, ==_refl, Text, Bool, true, List, [], ◌∷◌, ◌++◌, codes, is_empty, strip_prefix,
  none, some, contains, split_on, split_on-append, split_on-piece, split_on-cons, is_piece, ◌≡◌,
  refl, ◌∙◌, ap, arith, if◌then◌else◌,
}

abbrev pub reason_first_party : Text
reason_first_party = codes "first-party"

abbrev pub reason_not_published : Text
reason_not_published = codes "not-published"

abbrev pub reason_no_license_upstream : Text
reason_no_license_upstream = codes "no-license-upstream"

abbrev pub reason_no_purl : Text
reason_no_purl = codes "no-purl"

abbrev pub reason_unsupported : Text
reason_unsupported = codes "unsupported-ecosystem"

abbrev pub reason_unresolved : Text
reason_unresolved = codes "unresolved"

abbrev pub negative_marker : Text
negative_marker = codes "!"

unfoldable pub negative_cache_value : Text → Text
negative_cache_value reason = if is_empty reason then [] else negative_marker ++ reason

unfoldable pub split_cache_value : Text → Text × Text
split_cache_value v = elim (strip_prefix negative_marker v) [
  | some reason ↦ ([], reason)
  | none ↦ (v, [])
]

abbrev pub drop_first : List Text → List Text
drop_first [] = []
drop_first (part ∷ parts) = parts

unfoldable pub with_modifier : Text → Text → Text
with_modifier source modifier =
    if is_empty source || is_empty modifier
    then source
    else (if contains (drop_first (split_on b'+' source)) modifier
        then source
        else source ++ (codes "+" ++ modifier))

abbrev pub unresolved_reasons : List Text
unresolved_reasons =
    reason_first_party ∷ reason_no_purl ∷ reason_unsupported ∷ reason_not_published
    ∷ reason_no_license_upstream ∷ reason_unresolved ∷ []

unfoldable pub is_unresolved_reason : Text → Bool
is_unresolved_reason source = contains unresolved_reasons source

-- A reason, the empty one included, is read back from its encoding, with no license.
pub split_cache_value-negative_cache_value :
    (reason : Text) → split_cache_value (negative_cache_value reason) ≡ ([], reason)
unfolding split_cache_value negative_cache_value strip_prefix
split_cache_value-negative_cache_value [] = refl
split_cache_value-negative_cache_value (c ∷ reason) = refl

drop_first-append :
    (sep : ℕ) (s : Text) (parts : List Text)
    → drop_first (split_on sep s ++ parts) ≡ drop_first (split_on sep s) ++ parts
drop_first-append sep s parts = let (first, rest, e) = split_on-cons sep s in rw e refl

contains-last : (parts : List Text) (m : Text) → contains (parts ++ m ∷ []) m ≡ true
unfolding contains
contains-last [] m = rw ==_refl refl
contains-last (p ∷ parts) m = ground (arith, contains-last parts m)

-- A modifier without "+", once added, is one of the modifiers of the source.
with_modifier-contains :
    (source modifier : Text)
    → is_piece b'+' modifier ≡ true
    → contains (drop_first (split_on b'+' (source ++ (codes "+" ++ modifier)))) modifier ≡ true
with_modifier-contains source modifier h =
    ap (λ parts. contains (drop_first parts) modifier)
      (split_on-append b'+' source modifier
        ∙ ap (λ last. split_on b'+' source ++ last) (split_on-piece b'+' modifier h))
    ∙ rw drop_first-append (contains-last (drop_first (split_on b'+' source)) modifier)

-- Adding a modifier without "+" twice is adding it once.
pub with_modifier_idem :
    (source modifier : Text)
    → is_piece b'+' modifier ≡ true
    → with_modifier (with_modifier source modifier) modifier ≡ with_modifier source modifier
unfolding with_modifier
with_modifier_idem source modifier h = ground (arith, with_modifier-contains source modifier h)
