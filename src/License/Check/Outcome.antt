-- ===== src/License/Check/Outcome.antt =====
-- The comparisons `sameMultiset` and `SameOutcome` (backend/internal/license/reevaluate.go).
use mathlib.Core.List.{Perm}
use bomhort.Base.{
  Perm-length, sort, List, [], ◌∷◌, ◌↔◌, length, sort_iff, ==_iff, arith, Text, true, ◌≡◌, refl,
}
use bomhort.License.Check.{same_items, same_multiset, same_outcome, Result}

same_items_iff : (a b : List Text) → (same_items a b ≡ true) ↔ (a ≡ b)
unfolding same_items
same_items_iff [] [] = (λ _. refl, λ _. refl)
same_items_iff [] (y ∷ b) = (λ h. cc, λ h. cc)
same_items_iff (x ∷ a) [] = (λ h. cc, λ h. cc)
same_items_iff (x ∷ a) (y ∷ b) = ground (arith, same_items_iff a b, ==_iff x y)

-- `sameMultiset` accepts two lists exactly if one is a rearrangement of the other.
pub same_multiset_iff : (a b : List Text) → (same_multiset a b ≡ true) ↔ Perm a b
unfolding same_multiset
same_multiset_iff a b = (
  λ h. (sort_iff a b).0 ((same_items_iff (sort a) (sort b)).0 (ground arith)),
  λ p.
      let len : length a ≡ length b = Perm-length p in
      let same = (same_items_iff (sort a) (sort b)).1 ((sort_iff a b).1 p) in ground arith,
)

pub same_outcome-intro :
    (a b : Result)
    → a.exemption_reason ≡ b.exemption_reason
    → Perm a.non_compliant_packages b.non_compliant_packages
    → Perm a.exempted_packages b.exempted_packages
    → same_outcome a b ≡ true
unfolding same_outcome
same_outcome-intro a b e p q =
    let r = (==_iff a.exemption_reason b.exemption_reason).1 e in
    let s = (same_multiset_iff a.non_compliant_packages b.non_compliant_packages).1 p in
    let t = (same_multiset_iff a.exempted_packages b.exempted_packages).1 q in ground arith
