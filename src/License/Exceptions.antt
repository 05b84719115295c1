-- ===== src/License/Exceptions.antt =====
-- Operator-managed license exceptions: the file, its index, and the index's answer for a package and
-- a license (backend/internal/license/exceptions.go). Reading and decoding the JSON document is not
-- modelled. A nil index is `none`.
pub mod Covered
pub mod Blanket
pub mod Index
pub mod Exact
pub mod Load
use bomhort.Base.{
  ℕ, Text, Bool, true, false, ◌&&◌, ◌||◌, not, Option, none, some, List, [], ◌∷◌, ◌++◌, reverse,
  codes, ◌==◌, contains, is_empty, trim_space, to_lower, has_suffix, fields, lookup, insert,
  slice_at, append_at, find, or_else, eqb, if◌then◌else◌,
}
use bomhort.License.Result.{Result, ok, err, out_of_fuel}
use bomhort.License.Node.{Node, leaf_ids}
use bomhort.License.Parse.{parse_expression}

pub record BlanketException : Type 0 where
  pub id : Text
  pub license : Text
  pub status : Text
  pub approved_date : Text
  pub scope : Text
  pub results : Text
  pub issue_url : Text
  pub package_url : Text
  pub comment : Text

-- `package` is a reserved word here.
pub record Exception : Type 0 where
  pub id : Text
  pub package_name : Text
  pub license : Text
  pub project : Text
  pub status : Text
  pub approved_date : Text
  pub scope : Text
  pub results : Text
  pub issue_url : Text
  pub package_url : Text
  pub comment : Text

pub record ExceptionsFile : Type 0 where
  pub version : Text
  pub last_updated : Text
  pub description : Text
  pub blanket_exceptions : List BlanketException
  pub exceptions : List Exception

pub record ExceptionIndex : Type 0 where
  pub blanket_licenses : List (Text × BlanketException)
  pub package_license : List (Text × List Exception)
  pub package_any : List (Text × List Exception)
  pub package_rules : List Exception
  pub raw : ExceptionsFile

unfoldable pub status_is_approved : Text → Bool
status_is_approved status =
    let s = to_lower (trim_space status) in s == codes "approved" || s == codes "allowlisted"

-- The leaves of a parsed expression, or the text as it stands.
unfoldable pub ids_of : Text → Result Node → List Text
ids_of expr (ok tree) = leaf_ids tree
ids_of expr (err e) = expr ∷ []
ids_of expr out_of_fuel = expr ∷ []

unfoldable pub split_licenses : Text → List Text
split_licenses expr =
    let e = trim_space expr in if is_empty e then [] else ids_of e (parse_expression e)

-- The key "package\x00license".
abbrev pub key_of : Text → Text → Text
key_of name lic = name ++ 0 ∷ lic

unfoldable pub add_blanket_ids :
    BlanketException → List Text → List (Text × BlanketException) → List (Text × BlanketException)
add_blanket_ids be [] m = m
add_blanket_ids be (lic ∷ lics) m = add_blanket_ids be lics (insert lic be m)

unfoldable pub add_blankets :
    List BlanketException → List (Text × BlanketException) → List (Text × BlanketException)
add_blankets [] m = m
add_blankets (be ∷ bes) m =
    add_blankets bes
      (if status_is_approved be.status then add_blanket_ids be (split_licenses be.license) m else m)

unfoldable pub add_pairs :
    Exception → List Text → List (Text × List Exception) → List (Text × List Exception)
add_pairs exc [] m = m
add_pairs exc (lic ∷ lics) m = add_pairs exc lics (append_at (key_of exc.package_name lic) exc m)

-- One round of the loop over the package rules.
unfoldable pub add_exception : ExceptionIndex → Exception → ExceptionIndex
add_exception idx exc =
    if not (status_is_approved exc.status)
    then idx
    else (if not (is_empty exc.license) && not (is_empty exc.package_name)
        then record idx {
          package_license = add_pairs exc (split_licenses exc.license) idx.package_license;
          package_rules = idx.package_rules ++ exc ∷ [];
        }
        else (if not (is_empty exc.package_name)
            then record idx {
              package_any = append_at exc.package_name exc idx.package_any;
              package_rules = idx.package_rules ++ exc ∷ [];
            }
            else idx))

unfoldable pub add_exceptions : ExceptionIndex → List Exception → ExceptionIndex
add_exceptions idx [] = idx
add_exceptions idx (exc ∷ excs) = add_exceptions (add_exception idx exc) excs

unfoldable pub build_index : ExceptionsFile → ExceptionIndex
build_index ef =
    add_exceptions
      (record {
        blanket_licenses = add_blankets ef.blanket_exceptions [];
        package_license = [];
        package_any = [];
        package_rules = [];
        raw = ef;
      })
      ef.exceptions

-- "all projects", with at most one word in between
unfoldable pub is_all_projects_phrase : Text → Bool
is_all_projects_phrase scope = elim (fields (to_lower scope)) [
  | a ∷ b ∷ [] ↦ a == codes "all" && b == codes "projects"
  | a ∷ b ∷ c ∷ [] ↦ a == codes "all" && c == codes "projects"
  | _ ↦ false
]

abbrev pub is_first : Text → List Text → Bool
is_first scope [] = false
is_first scope (p ∷ projects) = scope == p

unfoldable pub matches_project : Text → List Text → Bool
matches_project scope projects =
    let s = trim_space scope in
    (is_empty s || s == codes "*" || is_all_projects_phrase s) || is_first s projects

-- The loop over the bases of a license, the longest first: `r` is the reverse of licenseID[:end], and
-- strings.LastIndex looks for the dash from its head on. A dash at the front names no base.
unfoldable pub blanket_base :
    List (Text × BlanketException) → Text → Option (Text × BlanketException)
blanket_base m [] = none
blanket_base m (c ∷ r) =
    let shorter = blanket_base m r in
    if eqb c b'-' && not (is_empty r)
    then elim (lookup (reverse r) m) [ some be ↦ some (reverse r, be) | none ↦ shorter ]
    else shorter

abbrev pub blanket_reason : BlanketException → Text
blanket_reason be = codes "Blanket exception: " ++ (be.id ++ (codes " – " ++ be.comment))

abbrev pub base_reason : Text × BlanketException → Text
base_reason (base, be) =
    codes "Blanket exception: "
    ++ (be.id ++ (codes " (via " ++ (base ++ (codes ") – " ++ be.comment))))

abbrev pub rule_reason : Exception → Text
rule_reason exc = codes "Exception: " ++ (exc.id ++ (codes " – " ++ exc.comment))

abbrev pub map_option : {A B : Type 0} → (A → B) → Option A → Option B
map_option f none = none
map_option f (some a) = some (f a)

-- The package name ends in the rule's package behind a slash.
unfoldable pub is_path_suffix : Text → Text → Bool
is_path_suffix name pkg = has_suffix (codes "/" ++ pkg) name

module _ (idx : ExceptionIndex) (name lic : Text) (projects : List Text) where
  -- steps 1 and 1b
  unfoldable pub blanket_exemption : Option Text
  blanket_exemption =
      or_else (map_option blanket_reason (lookup lic idx.blanket_licenses))
        (map_option base_reason (blanket_base idx.blanket_licenses (reverse lic)))

  -- steps 2 to 3b
  unfoldable pub rule_exemption : Option Text
  rule_exemption = map_option rule_reason (
      or_else
        (find (λ exc. matches_project exc.project projects)
          (slice_at (key_of name lic) idx.package_license))
        (or_else
          (find
            (λ exc.
              (is_path_suffix name exc.package_name && matches_project exc.project projects)
              && contains (split_licenses exc.license) lic)
            idx.package_rules)
          (or_else
            (find (λ exc. matches_project exc.project projects) (slice_at name idx.package_any))
            (find
              (λ exc.
                (is_empty exc.license && is_path_suffix name exc.package_name)
                && matches_project exc.project projects)
              idx.package_rules))))

-- `none` is not exempt, `some reason` is.
unfoldable pub exemption : Option ExceptionIndex → Text → Text → List Text → Option Text
exemption none name lic projects = none
exemption (some idx) name lic projects =
    or_else (blanket_exemption idx name lic projects) (rule_exemption idx name lic projects)

abbrev pub as_answer : Option Text → Bool × Text
as_answer none = (false, [])
as_answer (some reason) = (true, reason)

unfoldable pub is_exempt : Option ExceptionIndex → Text → Text → List Text → Bool × Text
is_exempt idx name lic projects = as_answer (exemption idx name lic projects)
