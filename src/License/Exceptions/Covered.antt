-- ===== src/License/Exceptions/Covered.antt =====
-- What an exceptions file promises, independently of its index
-- (backend/internal/license/exceptions.go): which packages and licenses its entries cover.
use bomhort.Base.{Text, ◌≡◌, ◌≢◌, ◌⊎◌, true, List, [], ◌∷◌, ◌++◌, Memᴰ, all, not, eqb}
use bomhort.License.Exceptions.{
  BlanketException, Exception, ExceptionsFile, status_is_approved, split_licenses, matches_project,
}

-- The license itself, or the license with a modifier behind a dash.
abbrev pub IsBaseOf : Text → Text → Type 0
IsBaseOf base lic = (lic ≡ base) ⊎ ((rest : Text) × (base ≢ []) × (lic ≡ base ++ b'-' ∷ rest))

-- The package itself, or a path that ends in it.
abbrev pub IsNameFor : Text → Text → Type 0
IsNameFor pkg name = (name ≡ pkg) ⊎ ((path : Text) × (name ≡ path ++ b'/' ∷ pkg))

pub record BlanketCovers (be : BlanketException) (lic : Text) : Type 0 where
  pub approved : status_is_approved be.status ≡ true
  pub base : Text
  pub listed : Memᴰ base (split_licenses be.license)
  pub matches : IsBaseOf base lic

pub record RuleCovers (exc : Exception) (name lic : Text) (projects : List Text) : Type 0 where
  pub approved : status_is_approved exc.status ≡ true
  pub named : exc.package_name ≢ []
  pub in_scope : matches_project exc.project projects ≡ true
  pub for_name : IsNameFor exc.package_name name
  pub for_license : (exc.license ≡ []) ⊎ Memᴰ lic (split_licenses exc.license)

pub data Covered (ef : ExceptionsFile) (name lic : Text) (projects : List Text) : Type 0 where
  by_blanket :
      (be : BlanketException)
      → Memᴰ be ef.blanket_exceptions
      → BlanketCovers be lic
      → Covered ef name lic projects
  by_rule :
      (exc : Exception)
      → Memᴰ exc ef.exceptions
      → RuleCovers exc name lic projects
      → Covered ef name lic projects

-- The separator of the index's keys does not occur.
abbrev pub NoNul : Text → Type 0
NoNul s = all (λ c. not (eqb c 0)) s ≡ true
