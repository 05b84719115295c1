-- ===== src/Members/Examples.antt =====
-- The members of parents (backend/cmd/api-gateway/vuln_filter.go) on concrete assignments.
use bomhort.Base.{Text, codes, List, [], ◌∷◌, ◌≡◌, refl, contains, any, ◌||◌, ◌&&◌, ◌==◌}
use bomhort.ProjectGroup.{Assignment}
use bomhort.Members.{heads, parent_members}
use bomhort.Members.Listed.{belongs, contains-parent_members}

abbrev assigned : List (Text × Assignment)
assigned =
    (codes "api", record { parent = codes "shop"; source = codes "explicit"; owner = [] })
    ∷ (codes "lib", record { parent = codes "api"; source = codes "purl"; owner = codes "acme" })
    ∷ []

-- the project heads a group of its own
shop-members : parent_members (codes "shop" ∷ []) assigned ≡ codes "shop" ∷ []
unfolding parent_members bomhort.Members.add_members contains ◌==◌
shop-members = refl

contains-parent_members_example :
    contains (parent_members (codes "api" ∷ []) assigned) (codes "lib") ≡ (
      contains (codes "api" ∷ []) (codes "lib")
      || any (λ e. e.0 == codes "lib" && belongs (codes "api" ∷ []) (heads assigned) e) assigned)
contains-parent_members_example = contains-parent_members (codes "api" ∷ []) assigned (codes "lib")
