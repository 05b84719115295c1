-- ===== src/License/Check/Closed.antt =====
-- The aggregation loop of `CheckWithExceptions` (backend/internal/license/checker.go), and a closed form
-- over the names of a license's packages.
use bomhort.Base.{
  find, map, ℕ, ◌+◌, ◌%◌, ◌^◌, Text, ◌≡◌, refl, ap, ◌∙◌, Bool, true, false, ◌&&◌, not, Option, none,
  some, List, [], ◌∷◌, ◌++◌, ◌==◌, ==_iff, lookup, lookup-insert, length, length-append, keep,
  keep-append, append_assoc, append-nil, arith, Bool-cases, inl, inr, if◌then◌else◌,
}
use bomhort.License.Category.{Category, is_permissive}
use bomhort.License.Exceptions.{map_option, ExceptionIndex, is_exempt}
use bomhort.License.Check.{
  Result, LicenseAgg, is_go_temp_name, blanket_of, fresh_entry, count_package, entry_of,
  check_package, check_all, result_of, check_with_exceptions,
}

-- The names of the packages under a license, those of Go's temporary directories left out.
unfoldable pub packages_under : Text → List Text → List Text → List Text
packages_under lic names [] = []
packages_under lic [] (l ∷ lics) =
    let rest = packages_under lic [] lics in
    if l == lic && not (is_go_temp_name []) then [] ∷ rest else rest
packages_under lic (name ∷ names) (l ∷ lics) =
    let rest = packages_under lic names lics in
    if l == lic && not (is_go_temp_name name) then name ∷ rest else rest

continue_with :
    (report : List Text → Option LicenseAgg) (b : Bool) (ns more : List Text) (name : Text)
    {now out : Option LicenseAgg}
    → ((ms : List Text) → now ≡ report ms → out ≡ report (ms ++ more))
    → now ≡ (if b then report (ns ++ name ∷ []) else report ns)
    → out ≡ report (ns ++ (if b then name ∷ more else more))
continue_with report true ns more name rec e =
    rec (ns ++ name ∷ []) e ∙ ap report (append_assoc ns (name ∷ []) more)
continue_with report false ns more name rec e = rec ns e

-- Whether the exceptions let a package use a license, and whether the package violates the policy
-- otherwise.
unfoldable pub exempts : Option ExceptionIndex → List Text → Text → Text → Bool
exempts exceptions project lic name = (is_exempt exceptions name lic project).0

unfoldable pub violates : Option ExceptionIndex → List Text → Text → Text → Bool
unfolding exempts
violates exceptions project lic name = not (is_exempt exceptions name lic project).0

module _ (category_of : Text → Category) (exceptions : Option ExceptionIndex)
    (project : List Text) where
  -- The entry of a license whose packages have these names.
  unfoldable pub closed_entry : Text → List Text → LicenseAgg
  closed_entry lic ns =
      let blanket = (blanket_of exceptions lic).0 in
      let open_case = is_permissive (category_of lic) in
      record {
        count = length ns % 2 ^ 32;
        packages =
            if blanket
            then []
            else (if open_case then [] else keep (violates exceptions project lic) ns);
        exempted =
            if blanket
            then ns
            else (if open_case then [] else keep (exempts exceptions project lic) ns);
        category = category_of lic;
        blanket_exempt = blanket;
        exemption_note = (blanket_of exceptions lic).1;
      }

  abbrev pub closed : Text → List Text → Option LicenseAgg
  closed lic [] = none
  closed lic (n ∷ ns) = some (closed_entry lic (n ∷ ns))

  count_mod : (k : ℕ) → (k % 2 ^ 32 + 1) % 2 ^ 32 ≡ (k + 1) % 2 ^ 32
  count_mod k = omega arith

  closed_entry-concat :
      (lic name : Text) (ns : List Text)
      → count_package category_of exceptions project lic name (closed_entry lic ns)
        ≡ closed_entry lic (ns ++ name ∷ [])
  unfolding count_package closed_entry
  closed_entry-concat lic name ns =
      let e : exempts exceptions project lic name ≡ (is_exempt exceptions name lic project).0 =
        unfold exempts in refl in
      let v : violates exceptions project lic name ≡ not (is_exempt exceptions name lic project).0 =
        unfold violates in refl in
      ground (
        arith,
        length-append ns (name ∷ []),
        count_mod (length ns),
        keep-append (violates exceptions project lic) ns (name ∷ []),
        keep-append (exempts exceptions project lic) ns (name ∷ []),
        append-nil (keep (exempts exceptions project lic) ns),
        append-nil (keep (violates exceptions project lic) ns),
      )

  closed-concat :
      (lic name : Text) (ns : List Text)
      → closed lic (ns ++ name ∷ []) ≡ some (closed_entry lic (ns ++ name ∷ []))
  closed-concat lic name [] = refl
  closed-concat lic name (n ∷ ns) = refl

  fresh-closed : (lic : Text) → fresh_entry category_of exceptions project lic ≡ closed_entry lic []
  unfolding fresh_entry closed_entry
  fresh-closed lic = ground arith

  entry_of-closed :
      (lic : Text) (ns : List Text)
      → entry_of category_of exceptions project lic (closed lic ns) ≡ closed_entry lic ns
  unfolding entry_of
  entry_of-closed lic [] = fresh-closed lic
  entry_of-closed lic (n ∷ ns) = refl

  abbrev Agg : Type 0
  Agg = List (Text × LicenseAgg)

  lookup-check_package :
      (agg : Agg) (lic name l : Text) (ns : List Text)
      → lookup lic agg ≡ closed lic ns
      → lookup lic (check_package category_of exceptions project agg name l) ≡ (
          if l == lic && not (is_go_temp_name name)
          then closed lic (ns ++ name ∷ [])
          else closed lic ns)
  unfolding check_package
  lookup-check_package agg lic name l ns h = elim (Bool-cases (is_go_temp_name name)) [
    | inl t ↦ rw (t, h) (ground arith)
    | inr t ↦
        rw (t, lookup-insert)
          (elim (Bool-cases (l == lic)) [
            | inl e ↦
                let same : l ≡ lic = (==_iff l lic).0 e in
                rw (e, same, h, entry_of-closed, closed_entry-concat, closed-concat) refl
            | inr e ↦ rw (e, h) refl
          ])
  ]

  lookup-check_all :
      (agg : Agg) (lic : Text) (names lics ns : List Text)
      → lookup lic agg ≡ closed lic ns
      → lookup lic (check_all category_of exceptions project agg names lics)
        ≡ closed lic (ns ++ packages_under lic names lics)
  unfolding check_all packages_under
  lookup-check_all agg lic names [] ns h = rw append-nil h
  lookup-check_all agg lic [] (l ∷ lics) ns h =
      continue_with (closed lic) (l == lic && not (is_go_temp_name [])) ns _ []
        (λ ms k.
          lookup-check_all (check_package category_of exceptions project agg [] l) lic [] lics ms k)
        (lookup-check_package agg lic [] l ns h)
  lookup-check_all agg lic (name ∷ names) (l ∷ lics) ns h =
      continue_with (closed lic) (l == lic && not (is_go_temp_name name)) ns _ name
        (λ ms k.
          lookup-check_all (check_package category_of exceptions project agg name l) lic names lics
            ms k)
        (lookup-check_package agg lic name l ns h)

  -- The loop computes the closed form, for every license.
  pub check_all-closed :
      (lic : Text) (names lics : List Text)
      → lookup lic (check_all category_of exceptions project [] names lics)
        ≡ closed lic (packages_under lic names lics)
  unfolding lookup
  check_all-closed lic names lics = lookup-check_all [] lic names lics [] refl

-- The result of a license.
unfoldable pub result_for : Text → List Result → Option Result
result_for lic rs = find (λ r. r.license_id == lic) rs

pub result_for-map :
    (lic : Text) (agg : List (Text × LicenseAgg))
    → result_for lic (map result_of agg) ≡ map_option (λ e. result_of (lic, e)) (lookup lic agg)
unfolding result_for find lookup result_of
result_for-map lic [] = refl
result_for-map lic ((l, e) ∷ agg) = elim (Bool-cases (l == lic)) [
  | inl h ↦ let same : l ≡ lic = (==_iff l lic).0 h in rw (h, same) refl
  | inr h ↦ rw h (result_for-map lic agg)
]

-- The result that the closed form gives a license.
unfoldable pub closed_result :
    (Text → Category) → Option ExceptionIndex → List Text → Text → List Text → Option Result
closed_result category_of exceptions project lic ns =
    map_option (λ e. result_of (lic, e)) (closed category_of exceptions project lic ns)

-- For each license, `CheckWithExceptions` reports the closed form over the packages under it: none if
-- there are no such packages, and else their number and how the exceptions split their names.
pub check_with_exceptions-closed :
    (category_of : Text → Category) (exceptions : Option ExceptionIndex) (project : List Text)
    (lic : Text) (names lics : List Text)
    → result_for lic (check_with_exceptions category_of exceptions project names lics)
      ≡ closed_result category_of exceptions project lic (packages_under lic names lics)
unfolding check_with_exceptions closed_result
check_with_exceptions-closed category_of exceptions project lic names lics =
    result_for-map lic (check_all category_of exceptions project [] names lics)
    ∙ ap (map_option (λ e. result_of (lic, e)))
        (check_all-closed category_of exceptions project lic names lics)
