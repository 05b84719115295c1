-- ===== src/License/Check.antt =====
-- Compliance results of one SBOM (backend/internal/license/checker.go) and their re-evaluation under
-- other exceptions (backend/internal/license/reevaluate.go). `category_of` is `Categorize` under the
-- policy that is active during the run. The aggregation map is listed in the order in which its keys
-- appear; Go lists its results in no particular order.
pub mod Closed
pub mod Outcome
pub mod Recheck
use bomhort.Base.{
  ◌==◌, ℕ, zero, suc, ◌+◌, ◌%◌, ◌^◌, Text, Bool, true, false, ◌&&◌, ◌||◌, not, Option, none, some,
  List, [], ◌∷◌, ◌++◌, map, codes, lookup, insert, strip_prefix, length, all, leb, eqb, sort,
  if◌then◌else◌,
}
use bomhort.License.Category.{Category, permissive, is_permissive}
use bomhort.License.Exceptions.{ExceptionIndex, is_exempt}

pub record Result : Type 0 where
  pub license_id : Text
  pub category : Category
  pub package_count : ℕ
  pub non_compliant_packages : List Text
  pub exempted_packages : List Text
  pub exemption_reason : Text

pub record LicenseAgg : Type 0 where
  pub count : ℕ
  pub packages : List Text
  pub exempted : List Text
  pub category : Category
  pub blanket_exempt : Bool
  pub exemption_note : Text

abbrev pub is_alnum : ℕ → Bool
is_alnum c = (leb b'a' c && leb c b'z') || (leb b'A' c && leb c b'Z') || (leb b'0' c && leb c b'9')

-- ^tmp\.[a-zA-Z0-9]{6,}$
unfoldable pub is_go_temp_name : Text → Bool
is_go_temp_name name = elim (strip_prefix (codes "tmp.") name) [
  | none ↦ false
  | some rest ↦ leb 6 (length rest) && all is_alnum rest
]

-- exceptions.IsExempt behind the nil test of `CheckWithExceptions`
abbrev pub blanket_of : Option ExceptionIndex → Text → Bool × Text
blanket_of exceptions lic = is_exempt exceptions [] lic []

unfoldable pub result_of : Text × LicenseAgg → Result
result_of (lic, entry) = record {
  license_id = lic;
  category = entry.category;
  package_count = entry.count;
  non_compliant_packages = entry.packages;
  exempted_packages = entry.exempted;
  exemption_reason = entry.exemption_note;
}

module _ (category_of : Text → Category) (exceptions : Option ExceptionIndex)
    (project : List Text) where
  unfoldable pub fresh_entry : Text → LicenseAgg
  fresh_entry lic = record {
    count = 0;
    packages = [];
    exempted = [];
    category = category_of lic;
    blanket_exempt = (blanket_of exceptions lic).0;
    exemption_note = (blanket_of exceptions lic).1;
  }

  -- The entry after one more package; the counter is a uint32.
  unfoldable pub count_package : Text → Text → LicenseAgg → LicenseAgg
  count_package lic name entry =
      let counted = record entry { count = (entry.count + 1) % 2 ^ 32 } in
      if entry.blanket_exempt
      then record counted { exempted = entry.exempted ++ name ∷ [] }
      else (if is_permissive (category_of lic)
          then counted
          else (if (is_exempt exceptions name lic project).0
              then record counted { exempted = entry.exempted ++ name ∷ [] }
              else record counted { packages = entry.packages ++ name ∷ [] }))

  unfoldable pub entry_of : Text → Option LicenseAgg → LicenseAgg
  entry_of lic none = fresh_entry lic
  entry_of lic (some entry) = entry

  unfoldable pub check_package : List (Text × LicenseAgg) → Text → Text → List (Text × LicenseAgg)
  check_package agg name lic =
      if is_go_temp_name name
      then agg
      else insert lic (count_package lic name (entry_of lic (lookup lic agg))) agg

  -- The loop over the licenses; a package beyond the names has the empty name.
  unfoldable pub check_all :
      List (Text × LicenseAgg) → List Text → List Text → List (Text × LicenseAgg)
  check_all agg names [] = agg
  check_all agg [] (lic ∷ lics) = check_all (check_package agg [] lic) [] lics
  check_all agg (name ∷ names) (lic ∷ lics) = check_all (check_package agg name lic) names lics

  unfoldable pub check_with_exceptions : List Text → List Text → List Result
  check_with_exceptions names lics = map result_of (check_all [] names lics)

-- `Check`: no exceptions
unfoldable pub check : (Text → Category) → List Text → List Text → List Result
check category_of names lics = check_with_exceptions category_of none [] names lics

-- The loop that splits the package names anew.
unfoldable pub split_names :
    Option ExceptionIndex → Text → Text → List Text → List Text → List Text → List Text × List Text
split_names exceptions lic project [] packages exempted = (packages, exempted)
split_names exceptions lic project (name ∷ names) packages exempted =
    let exempt = (is_exempt exceptions name lic (project ∷ [])).0 in
    split_names exceptions lic project names (if exempt then packages else packages ++ name ∷ [])
      (if exempt then exempted ++ name ∷ [] else exempted)

unfoldable pub reevaluate : Result → Option ExceptionIndex → Text → Result
reevaluate r exceptions project =
    let names = r.non_compliant_packages ++ r.exempted_packages in
    let blanket = blanket_of exceptions r.license_id in
    let (packages, exempted) = split_names exceptions r.license_id project names [] [] in
    if blanket.0
    then record r {
      non_compliant_packages = [];
      exempted_packages = names;
      exemption_reason = blanket.1;
    }
    else (if is_permissive r.category
        then record r { non_compliant_packages = []; exempted_packages = []; exemption_reason = [] }
        else record r {
          non_compliant_packages = packages;
          exempted_packages = exempted;
          exemption_reason = [];
        })

-- element by element
unfoldable pub same_items : List Text → List Text → Bool
same_items [] [] = true
same_items (x ∷ xs) (y ∷ ys) = x == y && same_items xs ys
same_items _ _ = false

unfoldable pub same_multiset : List Text → List Text → Bool
same_multiset a b = if not (eqb (length a) (length b)) then false else same_items (sort a) (sort b)

unfoldable pub same_outcome : Result → Result → Bool
same_outcome a b =
    (a.exemption_reason == b.exemption_reason
      && same_multiset a.non_compliant_packages b.non_compliant_packages)
    && same_multiset a.exempted_packages b.exempted_packages
