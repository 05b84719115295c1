-- ===== src/Depgraph.antt =====
-- Each package's distance from the product (backend/internal/depgraph/depth.go). The adjacency lists
-- and the in-degrees are read off the list of the walk's edges. Package indices are natural numbers;
-- only `DepthOf` takes an index that may be negative. A depth is a uint16.
pub mod Total
pub mod Nearest
pub mod Distance
pub mod Discover
pub mod Level
pub mod Invariant
pub mod Origin
pub mod Seeding
pub mod Shortest
pub mod Examples
use bomhort.Base.{
  ℕ, zero, suc, ◌+◌, ◌%◌, ◌^◌, Text, Bool, true, false, ◌&&◌, ◌||◌, not, Option, some, none, List,
  [], ◌∷◌, ◌++◌, codes, ◌==◌, contains, eqb, ltb, leb, length, keep, to_lower, if◌then◌else◌,
}

abbrev pub unknown_depth : ℕ
unknown_depth = 65535

abbrev pub scope_root : Text
scope_root = codes "root"

abbrev pub scope_direct : Text
scope_direct = codes "direct"

abbrev pub scope_transitive : Text
scope_transitive = codes "transitive"

abbrev pub scope_unknown : Text
scope_unknown = codes "unknown"

unfoldable pub scope : ℕ → Text
scope depth =
    if eqb depth unknown_depth
    then scope_unknown
    else (if eqb depth 0
        then scope_root
        else (if eqb depth 1 then scope_direct else scope_transitive))

pub data ℤ : Type 0 where
  pos : ℕ → ℤ
  negsuc : ℕ → ℤ

abbrev pub depth_at : List ℕ → ℕ → ℕ
depth_at [] i = unknown_depth
depth_at (d ∷ depths) zero = d
depth_at (d ∷ depths) (suc i) = depth_at depths i

unfoldable pub depth_of : List ℕ → ℤ → ℕ
depth_of depths (pos i) = depth_at depths i
depth_of depths (negsuc i) = unknown_depth

unfoldable pub scope_of : List ℕ → ℤ → Text
scope_of depths idx = scope (depth_of depths idx)

abbrev pub scopes : List Text
scopes = scope_root ∷ scope_direct ∷ scope_transitive ∷ scope_unknown ∷ []

unfoldable pub is_valid_scope : Text → Bool
is_valid_scope s = contains scopes s

pub data EdgeDirection : Type 0 where
  ignore forward backward : EdgeDirection

abbrev pub forward_types : List Text
forward_types =
    codes "dependson"
    ∷ codes "contains"
    ∷ codes "hasprerequisite"
    ∷ codes "prerequisite"
    ∷ codes "staticlink"
    ∷ codes "dynamiclink"
    ∷ codes "runtimedependency"
    ∷ codes "builddependency"
    ∷ codes "devdependency"
    ∷ codes "optionaldependency"
    ∷ codes "provideddependency"
    ∷ codes "testdependency"
    ∷ codes "optionalcomponent"
    ∷ codes "packageof"
    ∷ codes "packages"
    ∷ []

abbrev pub backward_types : List Text
backward_types =
    codes "dependencyof"
    ∷ codes "runtimedependencyof"
    ∷ codes "builddependencyof"
    ∷ codes "devdependencyof"
    ∷ codes "optionaldependencyof"
    ∷ codes "provideddependencyof"
    ∷ codes "testdependencyof"
    ∷ codes "containedby"
    ∷ codes "prerequisitefor"
    ∷ []

unfoldable pub classify_relationship : Text → EdgeDirection
classify_relationship rel_type =
    let key = to_lower (keep (λ c. not (eqb c b'_')) rel_type) in
    if contains forward_types key
    then forward
    else (if contains backward_types key then backward else ignore)

abbrev pub Edges : Type 0
Edges = List (ℕ × ℕ)

abbrev pub directed : EdgeDirection → ℕ → ℕ → Edges → Edges
directed ignore src tgt edges = edges
directed forward src tgt edges = (src, tgt) ∷ edges
directed backward src tgt edges = (tgt, src) ∷ edges

abbrev pub type_at : List Text → Text
type_at [] = []
type_at (t ∷ types) = t

abbrev pub types_behind : List Text → List Text
types_behind [] = []
types_behind (t ∷ types) = types

-- The loop over the relationships: the edges in the direction of the walk.
unfoldable pub walk_edges : ℕ → List ℕ → List ℕ → List Text → Edges
walk_edges n [] targets types = []
walk_edges n (src ∷ sources) [] types = []
walk_edges n (src ∷ sources) (tgt ∷ targets) types =
    let rest = walk_edges n sources targets (types_behind types) in
    if leb n src || leb n tgt || eqb src tgt
    then rest
    else directed (classify_relationship (type_at types)) src tgt rest

-- adj[i]
unfoldable pub children : Edges → ℕ → List ℕ
children [] i = []
children ((u, v) ∷ edges) i = let rest = children edges i in if eqb u i then v ∷ rest else rest

-- inDegree[i] > 0
unfoldable pub has_parent : Edges → ℕ → Bool
has_parent [] i = false
has_parent ((u, v) ∷ edges) i = eqb v i || has_parent edges i

-- The depth of an unseen package is set. Every index that the walk meets is in range.
unfoldable pub claim : ℕ → ℕ → List ℕ → Option (List ℕ)
claim d i [] = none
claim d zero (x ∷ depths) = if eqb x unknown_depth then some (d ∷ depths) else none
claim d (suc i) (x ∷ depths) =
    let rest = claim d i depths in elim rest [ none ↦ none | some ds ↦ some (x ∷ ds) ]

pub record Walk : Type 0 where
  pub depths : List ℕ
  pub queue : List ℕ

-- An unseen package gets its depth and enters the queue.
unfoldable pub discover : ℕ → ℕ → Walk → Walk
discover d i w = elim (claim d i w.depths) [
  | none ↦ w
  | some ds ↦ record { depths = ds; queue = w.queue ++ i ∷ [] }
]

unfoldable pub discover_all : ℕ → List ℕ → Walk → Walk
discover_all d [] w = w
discover_all d (i ∷ is) w = discover_all d is (discover d i w)

unfoldable pub all_unknown : ℕ → List ℕ
all_unknown zero = []
all_unknown (suc n) = unknown_depth ∷ all_unknown n

abbrev pub has_child : List ℕ → Bool
has_child [] = false
has_child (c ∷ cs) = true

-- The packages from i on, k of them, that nothing depends on but that depend on others.
unfoldable pub candidates : Edges → ℕ → ℕ → List ℕ
candidates edges i zero = []
candidates edges i (suc k) =
    let rest = candidates edges (suc i) k in
    if not (has_parent edges i) && has_child (children edges i) then i ∷ rest else rest

-- Exactly one candidate becomes the root.
abbrev pub start_at : List ℕ → Walk → Walk
start_at [] w = w
start_at (c ∷ []) w = discover 0 c w
start_at (c ∷ d ∷ cs) w = w

unfoldable pub seeded : ℕ → List ℕ → List ℕ → Walk
seeded n roots direct_seeds =
    discover_all 1 direct_seeds
      (discover_all 0 roots (record { depths = all_unknown n; queue = [] }))

-- Without a package in the queue the fallback decides. Go leaves early where there is no package or no
-- edge: then there is no candidate.
abbrev pub unless_seeded : List ℕ → Walk → Walk → Walk
unless_seeded [] fallback w = fallback
unless_seeded (i ∷ is) fallback w = w

unfoldable pub start : ℕ → Edges → Walk → Walk
start n edges w = unless_seeded w.queue (start_at (candidates edges 0 n) w) w

-- One round of the walk, with the head of the queue taken off.
unfoldable pub expand : Edges → ℕ → Walk → Walk
expand edges cur w =
    let next = (depth_at w.depths cur + 1) % 2 ^ 16 in
    if eqb next unknown_depth then w else discover_all next (children edges cur) w

-- `none` stands for a walk that took more rounds than the fuel.
unfoldable pub walk : ℕ → Edges → List ℕ → List ℕ → Option (List ℕ)
walk f edges depths [] = some depths
walk zero edges depths (cur ∷ queue) = none
walk (suc f) edges depths (cur ∷ queue) =
    let w = expand edges cur (record { depths = depths; queue = queue }) in
    walk f edges w.depths w.queue

-- Each package enters the queue once, so the fuel is the number of packages.
unfoldable pub compute : ℕ → List ℕ → List ℕ → List Text → List ℕ → List ℕ → Option (List ℕ)
compute n sources targets types roots direct_seeds =
    let edges = walk_edges n sources targets types in
    let w = start n edges (seeded n roots direct_seeds) in walk n edges w.depths w.queue

abbrev pub depths_behind : List ℕ → List ℕ
depths_behind [] = []
depths_behind (d ∷ depths) = depths

unfoldable pub nearest : List Text → List ℕ → Text → ℕ → ℕ
nearest [] depths purl best = best
nearest (p ∷ purls) depths purl best =
    nearest purls (depths_behind depths) purl
      (if p == purl && ltb (depth_at depths 0) best then depth_at depths 0 else best)

unfoldable pub min_depth_for_purl : List Text → List ℕ → Text → ℕ
min_depth_for_purl purls depths purl = nearest purls depths purl unknown_depth
