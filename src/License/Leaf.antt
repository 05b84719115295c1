-- ===== src/License/Leaf.antt =====
-- One license identifier under the spellings that the policy may list it by: `lookupLeaf`,
-- `resolveLeaf`, `lookupDeprecated` of backend/internal/license/expression.go. `lookup` is the
-- policy's answer for one identifier.
use bomhort.Base.{
  ◌≡◌, refl, sym, ◌∙◌, inl, inr, Text, Bool, none, some, List, [], ◌∷◌, ◌++◌, codes, ◌==◌, ◌||◌,
  to_upper, trim_space, cut_before, has_suffix, if◌then◌else◌, arith, true, false, map, Bool-cases,
  Memᴰ,
}
use bomhort.License.Category.{Category, unknown, unapproved, permissive, copyleft, is_unknown}

-- No license information, as opposed to a declared license.
unfoldable pub is_no_license_info : Text → Bool
unfolding to_upper trim_space ◌==◌
is_no_license_info id =
    let up = to_upper (trim_space id) in
    up == [] || up == codes "NOASSERTION" || up == codes "NONE" || up == codes "UNKNOWN"

-- strings.TrimSuffix(id, "+") of an identifier that ends in "+"
unfoldable pub drop_last : Text → Text
drop_last [] = []
drop_last (c ∷ []) = []
drop_last (c ∷ d ∷ s) = c ∷ drop_last (d ∷ s)

module _ (lookup : Text → Category) where
  unfoldable pub lookup_deprecated : Text → Category
  lookup_deprecated id = elim (cut_before (codes "-with-") id) [
    | some b ↦ if is_unknown (lookup b) then lookup (b ++ codes "-only") else lookup b
    | none ↦ lookup (id ++ codes "-only")
  ]

  unfoldable pub resolve_leaf : Text → Category
  resolve_leaf id =
      if is_unknown (lookup id)
      then elim (cut_before (codes " WITH ") id) [
        | some base ↦ lookup base
        | none ↦
            if has_suffix (codes "+") id
            then (if is_unknown (lookup (drop_last id ++ codes "-or-later"))
                then lookup (drop_last id)
                else lookup (drop_last id ++ codes "-or-later"))
            else lookup_deprecated id
      ]
      else lookup id

  unfoldable pub lookup_leaf : Text → Category
  lookup_leaf id =
      if is_unknown (resolve_leaf id)
      then (if is_no_license_info id then unknown else unapproved)
      else resolve_leaf id

-- The spellings under which the policy is asked for an identifier, in order.
unfoldable pub spellings : Text → List Text
spellings id = id ∷ elim (cut_before (codes " WITH ") id) [
  | some base ↦ base ∷ []
  | none ↦
      if has_suffix (codes "+") id
      then (drop_last id ++ codes "-or-later") ∷ drop_last id ∷ []
      else elim (cut_before (codes "-with-") id) [
        | some b ↦ b ∷ (b ++ codes "-only") ∷ []
        | none ↦ (id ++ codes "-only") ∷ []
      ]
]

abbrev pub first_known : List Category → Category
first_known [] = unknown
first_known (c ∷ cs) = if is_unknown c then first_known cs else c

-- The policy's answer for an identifier is the first one that it has for a spelling of it.
resolve_leaf-first :
    (lookup : Text → Category) (id : Text)
    → resolve_leaf lookup id ≡ first_known (map lookup (spellings id))
unfolding resolve_leaf lookup_deprecated spellings
resolve_leaf-first lookup id = ground arith

first_known-listed :
    (lookup : Text → Category) (ss : List Text) (c : Category)
    → is_unknown c ≡ false
    → first_known (map lookup ss) ≡ c
    → (s : Text) × Memᴰ s ss × (lookup s ≡ c)
first_known-listed lookup [] c k h = ground arith
first_known-listed lookup (s ∷ ss) c k h = elim (Bool-cases (is_unknown (lookup s))) [
  | inl e ↦ let (t, m, q) = first_known-listed lookup ss c k (ground arith) in (t, Memᴰ.tail m, q)
  | inr e ↦ (s, Memᴰ.head refl, ground arith)
]

resolve_leaf-listed :
    (lookup : Text → Category) (id : Text) (c : Category)
    → is_unknown c ≡ false
    → resolve_leaf lookup id ≡ c
    → (s : Text) × Memᴰ s (spellings id) × (lookup s ≡ c)
resolve_leaf-listed lookup id c k h =
    first_known-listed lookup (spellings id) c k (sym (resolve_leaf-first lookup id) ∙ h)

-- An identifier is permissive only if the policy lists one of its spellings so, copyleft only if it
-- lists one so, and unknown only if it stands for no license information.
pub lookup_leaf-listed :
    (lookup : Text → Category) (id : Text)
    → (lookup_leaf lookup id ≡ permissive
        → (s : Text) × Memᴰ s (spellings id) × (lookup s ≡ permissive))
      × (lookup_leaf lookup id ≡ copyleft
          → (s : Text) × Memᴰ s (spellings id) × (lookup s ≡ copyleft))
      × (lookup_leaf lookup id ≡ unknown → is_no_license_info id ≡ true)
unfolding lookup_leaf
lookup_leaf-listed lookup id = (
  λ h. resolve_leaf-listed lookup id permissive refl (ground arith),
  λ h. resolve_leaf-listed lookup id copyleft refl (ground arith),
  λ h. ground arith,
)
