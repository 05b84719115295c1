-- ===== src/Members/Listed.antt =====
-- Which projects `parentMembers` lists (backend/cmd/api-gateway/vuln_filter.go).
use bomhort.Base.{
  Text, Bool, ◌&&◌, ◌||◌, not, List, [], ◌∷◌, ◌++◌, contains, any, ◌==◌, ◌≡◌, ◌∙◌, arith,
  if◌then◌else◌,
}
use bomhort.ProjectGroup.{Assignment}
use bomhort.Members.{heads, add_members, parent_members}

-- A project that is assigned to one of the parents, heads no group and is itself no parent.
unfoldable pub belongs : List Text → List Text → Text × Assignment → Bool
belongs want taken (project, a) =
    contains want a.parent && not (contains taken project) && not (contains want project)

contains-concat_if :
    (b : Bool) (ids : List Text) (id t : Text)
    → contains (if b then ids ++ id ∷ [] else ids) t ≡ (contains ids t || (id == t && b))
unfolding contains
contains-concat_if b [] id t = ground arith
contains-concat_if b (x ∷ ids) id t = ground (arith, contains-concat_if b ids id t)

contains-add_members :
    (want taken : List Text) (assignments : List (Text × Assignment)) (members : List Text)
    (t : Text)
    → contains (add_members want taken assignments members) t
      ≡ (contains members t || any (λ e. e.0 == t && belongs want taken e) assignments)
unfolding add_members belongs
contains-add_members want taken [] members t = ground arith
contains-add_members want taken ((project, a) ∷ assignments) members t =
    contains-add_members want taken assignments _ t
    ∙ regroup _ _ _ _ (contains-concat_if (belongs want taken (project, a)) members project t)
  where
    regroup : (x b c d : Bool) → x ≡ (b || c) → (x || d) ≡ (b || (c || d))
    regroup x b c d e = ground arith

-- A project is listed exactly if it is one of the parents, or is assigned to one of them, heads no group
-- of its own and is itself none of the parents.
pub contains-parent_members :
    (parents : List Text) (assignments : List (Text × Assignment)) (project : Text)
    → contains (parent_members parents assignments) project ≡ (
        contains parents project
        || any (λ e. e.0 == project && belongs parents (heads assignments) e) assignments)
unfolding parent_members
contains-parent_members parents assignments project =
    contains-add_members parents (heads assignments) assignments parents project
