-- ===== src/License/Check/Recheck.antt =====
-- `Reevaluate` and `SameOutcome` (backend/internal/license/reevaluate.go) against a fresh run of
-- `CheckWithExceptions` (backend/internal/license/checker.go).
use mathlib.Core.List.{Perm}
use mathlib.Core.List.Perm
use bomhort.Base.{
  keep_split, keep-Perm, ◌≢◌, keep-take, keep-drop, ◌∙◌, List, [], ◌∷◌, ◌++◌, not, keep,
  append_assoc, append-nil, sym, ap, inl, inr, Bool-cases, Text, true, false, Option, none, some,
  ◌≡◌, refl,
}
use bomhort.License.Category.{Category, is_permissive}
use bomhort.License.Exceptions.{is_exempt, exemption, as_answer, ExceptionIndex}
use bomhort.License.Check.{
  check_with_exceptions, blanket_of, result_of, same_outcome, split_names, reevaluate, Result,
}
use bomhort.License.Check.Outcome.{same_outcome-intro}
use bomhort.License.Check.Closed.{
  check_with_exceptions-closed, check_with_exceptions-closed, packages_under, result_for,
  closed_result, closed_entry, exempts, violates,
}

pub split_names-keep :
    (exceptions : Option ExceptionIndex) (lic project : Text) (ns ps es : List Text)
    → split_names exceptions lic project ns ps es ≡ (
      ps ++ keep (violates exceptions (project ∷ []) lic) ns,
      es ++ keep (exempts exceptions (project ∷ []) lic) ns,
    )
unfolding split_names
split_names-keep exceptions lic project [] ps es = rw (append-nil, append-nil) refl
split_names-keep exceptions lic project (n ∷ ns) ps es =
    let p = project ∷ [] in
    let out = keep (violates exceptions (project ∷ []) lic) ns in
    let inside = keep (exempts exceptions (project ∷ []) lic) ns in
    elim (Bool-cases ((is_exempt exceptions n lic (project ∷ [])).0)) [
      | inl e ↦
          rw
            (
              e,
              keep-take (exempts exceptions p lic) n ns (unfold exempts in e),
              keep-drop (violates exceptions p lic) n ns (unfold violates in ap not e),
            )
            (split_names-keep exceptions lic project ns ps (es ++ n ∷ [])
              ∙ ap (λ t. (ps ++ out, t)) (append_assoc es (n ∷ []) inside))
      | inr e ↦
          rw
            (
              e,
              keep-drop (exempts exceptions p lic) n ns (unfold exempts in e),
              keep-take (violates exceptions p lic) n ns (unfold violates in ap not e),
            )
            (split_names-keep exceptions lic project ns (ps ++ n ∷ []) es
              ∙ ap (λ t. (t, es ++ inside)) (append_assoc ps (n ∷ []) out))
    ]

is_exempt-reason :
    (exceptions : Option ExceptionIndex) (name lic : Text) (projects : List Text)
    → (is_exempt exceptions name lic projects).0 ≡ false
    → (is_exempt exceptions name lic projects).1 ≡ []
unfolding is_exempt
is_exempt-reason exceptions name lic projects = answer (exemption exceptions name lic projects)
  where
    answer : (o : Option Text) → (as_answer o).0 ≡ false → (as_answer o).1 ≡ []
    answer none h = refl
    answer (some r) h = cc

-- The result that the closed form gives a license with these packages.
fresh : (Text → Category) → Option ExceptionIndex → List Text → Text → List Text → Result
fresh category_of exceptions project lic ns =
    result_of (lic, closed_entry category_of exceptions project lic ns)

abbrev tracked : Result → List Text
tracked r = r.non_compliant_packages ++ r.exempted_packages

-- Under a license that is not permissive, every package is either violating or exempted.
tracked-fresh :
    (category_of : Text → Category) (exceptions : Option ExceptionIndex) (projects : List Text)
    (lic : Text) (ns : List Text)
    → is_permissive (category_of lic) ≡ false
    → Perm (tracked (fresh category_of exceptions projects lic ns)) ns
unfolding fresh result_of closed_entry
tracked-fresh category_of exceptions projects lic ns strict =
    elim (Bool-cases (blanket_of exceptions lic).0) [
      | inl b ↦ rw b (Perm.refl ns)
      | inr b ↦
          rw (b, strict)
            (keep_split (violates exceptions projects lic) (exempts exceptions projects lic)
              (λ x. unfold violates exempts in refl) ns)
    ]

reevaluate-blanket :
    (r : Result) (exceptions : Option ExceptionIndex) (project : Text)
    → (blanket_of exceptions r.license_id).0 ≡ true
    → reevaluate r exceptions project ≡ record r {
      non_compliant_packages = [];
      exempted_packages = tracked r;
      exemption_reason = (blanket_of exceptions r.license_id).1;
    }
unfolding reevaluate
reevaluate-blanket r exceptions project b = rw b refl

reevaluate-permissive :
    (r : Result) (exceptions : Option ExceptionIndex) (project : Text)
    → (blanket_of exceptions r.license_id).0 ≡ false
    → is_permissive r.category ≡ true
    → reevaluate r exceptions project
      ≡ record r { non_compliant_packages = []; exempted_packages = []; exemption_reason = [] }
unfolding reevaluate
reevaluate-permissive r exceptions project b h = rw (b, h) refl

reevaluate-split :
    (r : Result) (exceptions : Option ExceptionIndex) (project : Text)
    → (blanket_of exceptions r.license_id).0 ≡ false
    → is_permissive r.category ≡ false
    → reevaluate r exceptions project ≡ record r {
      non_compliant_packages = keep (violates exceptions (project ∷ []) r.license_id) (tracked r);
      exempted_packages = keep (exempts exceptions (project ∷ []) r.license_id) (tracked r);
      exemption_reason = [];
    }
unfolding reevaluate
reevaluate-split r exceptions project b h =
    rw (b, h, split_names-keep exceptions r.license_id project (tracked r) [] []) refl

reevaluate-fresh :
    (category_of : Text → Category) (exceptions : Option ExceptionIndex) (project lic : Text)
    (ns : List Text) (r : Result)
    → r.license_id ≡ lic
    → is_permissive r.category ≡ false
    → r.category ≡ category_of lic
    → Perm (tracked r) ns
    → same_outcome
        (reevaluate r exceptions project)
        (fresh category_of exceptions (project ∷ []) lic ns)
      ≡ true
unfolding fresh result_of closed_entry reevaluate
reevaluate-fresh category_of exceptions project lic ns r id strict same p =
    let sameness = ap is_permissive same in
    elim (Bool-cases (blanket_of exceptions lic).0) [
      | inl b ↦
          rw (reevaluate-blanket r exceptions project (rw id b))
            (same_outcome-intro _ _ (rw id refl) (rw b Perm.nil) (rw b p))
      | inr b ↦ rw (reevaluate-split r exceptions project (rw id b) strict) (
          same_outcome-intro _ _ (sym (is_exempt-reason exceptions [] lic [] b))
            (rw (b, sym sameness ∙ strict, id) (keep-Perm _ p))
            (rw (b, sym sameness ∙ strict, id) (keep-Perm _ p)))
    ]

-- A license with a result has packages, and the result is the closed form over them.
closed_result-some :
    (category_of : Text → Category) (exceptions : Option ExceptionIndex) (projects : List Text)
    (lic : Text) (ns : List Text) (r : Result)
    → closed_result category_of exceptions projects lic ns ≡ some r
    → (ns ≢ []) × (r ≡ fresh category_of exceptions projects lic ns)
unfolding closed_result fresh
closed_result-some category_of exceptions projects lic [] r h = cc
closed_result-some category_of exceptions projects lic (n ∷ ns) r h = (λ e. cc, cc)

closed_result-fresh :
    (category_of : Text → Category) (exceptions : Option ExceptionIndex) (projects : List Text)
    (lic : Text) (ns : List Text)
    → ns ≢ []
    → closed_result category_of exceptions projects lic ns
      ≡ some (fresh category_of exceptions projects lic ns)
unfolding closed_result fresh
closed_result-fresh category_of exceptions projects lic [] h = absurd (h refl)
closed_result-fresh category_of exceptions projects lic (n ∷ ns) h = refl

-- Where a run reports `r` for a license that is not permissive, a run over the same packages under any
-- other exceptions, for one project, reports a result `s` with the same outcome as `Reevaluate` gives
-- `r`, and with the category and the package count of `r`.
pub reevaluate-check_with_exceptions :
    (category_of : Text → Category) (before after : Option ExceptionIndex) (projects : List Text)
    (project lic : Text) (names lics : List Text) (r : Result)
    → is_permissive (category_of lic) ≡ false
    → result_for lic (check_with_exceptions category_of before projects names lics) ≡ some r
    → (s : Result) × (result_for lic
          (check_with_exceptions category_of after (project ∷ []) names lics)
        ≡ some s)
      × (same_outcome (reevaluate r after project) s ≡ true)
      × (s.category ≡ r.category)
      × (s.package_count ≡ r.package_count)
unfolding fresh result_of closed_entry
reevaluate-check_with_exceptions category_of before after projects project lic names lics r strict
      h =
    let ns = packages_under lic names lics in
    let (some_ns, e) =
      closed_result-some category_of before projects lic ns r
        (sym (check_with_exceptions-closed category_of before projects lic names lics) ∙ h) in
    let s = fresh category_of after (project ∷ []) lic ns in
    (
      s,
      check_with_exceptions-closed category_of after (project ∷ []) lic names lics
          ∙ closed_result-fresh category_of after (project ∷ []) lic ns some_ns,
      rw e (
          reevaluate-fresh category_of after project lic ns
            (fresh category_of before projects lic ns) refl strict refl
            (tracked-fresh category_of before projects lic ns strict)),
      rw e refl,
      rw e refl,
    )

-- Results that track the same packages, in any order, are re-evaluated alike.
reevaluate-perm :
    (r s : Result) (exceptions : Option ExceptionIndex) (project : Text)
    → s.license_id ≡ r.license_id
    → s.category ≡ r.category
    → is_permissive r.category ≡ false
    → Perm (tracked s) (tracked r)
    → same_outcome (reevaluate s exceptions project) (reevaluate r exceptions project) ≡ true
reevaluate-perm r s exceptions project id same strict p =
    elim (Bool-cases (blanket_of exceptions r.license_id).0) [
      | inl b ↦
          rw
            (
              reevaluate-blanket s exceptions project (rw id b),
              reevaluate-blanket r exceptions project b,
            )
            (same_outcome-intro _ _ (rw id refl) Perm.nil p)
      | inr b ↦
          rw
            (
              reevaluate-split s exceptions project (rw id b) (ap is_permissive same ∙ strict),
              reevaluate-split r exceptions project b strict,
            )
            (same_outcome-intro _ _ refl (rw id (keep-Perm _ p)) (rw id (keep-Perm _ p)))
    ]

-- Re-evaluation keeps the packages that a result tracks.
tracked-reevaluate :
    (r : Result) (exceptions : Option ExceptionIndex) (project : Text)
    → is_permissive r.category ≡ false
    → Perm (tracked (reevaluate r exceptions project)) (tracked r)
tracked-reevaluate r exceptions project strict =
    elim (Bool-cases (blanket_of exceptions r.license_id).0) [
      | inl b ↦ rw (reevaluate-blanket r exceptions project b) (Perm.refl (tracked r))
      | inr b ↦ rw (reevaluate-split r exceptions project b strict) (
          keep_split (violates exceptions (project ∷ []) r.license_id)
            (exempts exceptions (project ∷ []) r.license_id) (λ x. unfold violates exempts in refl)
            (tracked r))
    ]

reevaluate-keeps :
    (r : Result) (exceptions : Option ExceptionIndex) (project : Text)
    → ((reevaluate r exceptions project).license_id ≡ r.license_id)
      × ((reevaluate r exceptions project).category ≡ r.category)
reevaluate-keeps r exceptions project = elim (Bool-cases (blanket_of exceptions r.license_id).0) [
  | inl b ↦ rw (reevaluate-blanket r exceptions project b) (refl, refl)
  | inr b ↦ elim (Bool-cases (is_permissive r.category)) [
    | inl h ↦ rw (reevaluate-permissive r exceptions project b h) (refl, refl)
    | inr h ↦ rw (reevaluate-split r exceptions project b h) (refl, refl)
  ]
]

-- Re-evaluating a result for a license that is not permissive under some exceptions, and the outcome
-- under others, splits the packages as re-evaluating it under the latter at once does: no exception
-- that is granted or revoked in between leaves a trace.
pub reevaluate-reevaluate :
    (r : Result) (between after : Option ExceptionIndex) (project : Text)
    → is_permissive r.category ≡ false
    → same_outcome
        (reevaluate (reevaluate r between project) after project)
        (reevaluate r after project)
      ≡ true
reevaluate-reevaluate r between after project strict =
    let (id, same) = reevaluate-keeps r between project in
    reevaluate-perm r (reevaluate r between project) after project id same strict
      (tracked-reevaluate r between project strict)
