-- ===== src/Members.antt =====
-- The projects listed under given parents (backend/cmd/api-gateway/vuln_filter.go). The map of the
-- assignments is listed; Go visits it in no particular order.
pub mod Listed
pub mod Examples
use bomhort.ProjectGroup.{Assignment}
use bomhort.Base.{
  Text, Bool, true, false, ◌&&◌, not, List, [], ◌∷◌, ◌++◌, contains, map, if◌then◌else◌,
}

abbrev pub heads : List (Text × Assignment) → List Text
heads assignments = map (λ e. e.1.parent) assignments

-- The loop over the assignments.
unfoldable pub add_members :
    List Text → List Text → List (Text × Assignment) → List Text → List Text
add_members want taken [] members = members
add_members want taken ((project, a) ∷ assignments) members = add_members want taken assignments (
    if contains want a.parent && not (contains taken project) && not (contains want project)
    then members ++ project ∷ []
    else members)

unfoldable pub parent_members : List Text → List (Text × Assignment) → List Text
parent_members parents assignments = add_members parents (heads assignments) assignments parents
