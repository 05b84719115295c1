-- ===== src/Osv/Examples.antt =====
-- CVE identifiers (backend/internal/osvutil/cveid.go) of concrete findings.
use mathlib.Core.List.Perm
use bomhort.Base.{Text, codes, List, [], ◌∷◌, ◌≡◌, refl}
use bomhort.Osv.{cve_id}
use bomhort.Osv.Order.{cve_id-Perm}

abbrev older : Text
older = codes "CVE-2023-0001"

abbrev newer : Text
newer = codes " CVE-2024-12345"

cve_id-Perm_example :
    cve_id (codes "GHSA-1") (older ∷ newer ∷ []) ≡ cve_id (codes "GHSA-1") (newer ∷ older ∷ [])
cve_id-Perm_example =
    cve_id-Perm (codes "GHSA-1") (older ∷ newer ∷ []) (newer ∷ older ∷ [])
      (Perm.swap newer older [])

smallest : cve_id (codes "GHSA-1") (newer ∷ codes "GO-1" ∷ older ∷ []) ≡ older
unfolding cve_id bomhort.Osv.is_cve bomhort.Base.strip_prefix bomhort.Osv.best_alias
    bomhort.Osv.better bomhort.Base.trim_space bomhort.Osv.is_year_and_number bomhort.Base.text_le
smallest = refl
