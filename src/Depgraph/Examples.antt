-- ===== src/Depgraph/Examples.antt =====
-- Dependency depths (backend/internal/depgraph) of concrete documents.
use bomhort.Depgraph.Shortest.{compute-shortest, Way}
use bomhort.Base.{
  ◌≤◌, ◌≢◌, ◌≢◌, ℕ, Text, codes, List, [], ◌∷◌, Option, some, ◌≡◌, refl, any, leb, ◌||◌,
}
use bomhort.Depgraph.{depth_at, compute, unknown_depth, min_depth_for_purl}
use bomhort.Depgraph.Nearest.{depths_of_purl, min_depth_for_purl-any}

abbrev depends : List Text
depends = codes "DEPENDS_ON" ∷ codes "DEPENDENCY_OF" ∷ codes "dependsOn" ∷ []

-- 0 → 1, 2 is a dependency of 1, 2 → 0; package 3 stands alone
cyclic :
    compute 4 (0 ∷ 2 ∷ 2 ∷ []) (1 ∷ 1 ∷ 0 ∷ []) depends (0 ∷ []) []
    ≡ some (0 ∷ 1 ∷ 2 ∷ unknown_depth ∷ [])
unfolding compute bomhort.Depgraph.walk bomhort.Depgraph.start bomhort.Depgraph.seeded
    bomhort.Depgraph.discover_all bomhort.Depgraph.discover bomhort.Depgraph.claim
    bomhort.Depgraph.all_unknown bomhort.Depgraph.expand bomhort.Depgraph.children
    bomhort.Depgraph.walk_edges bomhort.Depgraph.classify_relationship bomhort.Base.contains
    bomhort.Base.◌==◌ bomhort.Base.to_lower
cyclic = refl

abbrev purls : List Text
purls = codes "pkg:npm/a" ∷ codes "pkg:npm/b" ∷ codes "pkg:npm/a" ∷ []

min_depth_for_purl-any_example :
    leb (min_depth_for_purl purls (3 ∷ 1 ∷ 2 ∷ []) (codes "pkg:npm/a")) 2 ≡ (
      leb unknown_depth 2
      || any (λ d. leb d 2) (depths_of_purl purls (3 ∷ 1 ∷ 2 ∷ []) (codes "pkg:npm/a")))
min_depth_for_purl-any_example = min_depth_for_purl-any purls (3 ∷ 1 ∷ 2 ∷ []) (codes "pkg:npm/a") 2

compute-shortest_example :
    (depths : List ℕ) × (compute 4 (0 ∷ 2 ∷ 2 ∷ []) (1 ∷ 1 ∷ 0 ∷ []) depends (0 ∷ []) []
      ≡ some depths)
    × ((i : ℕ)
        → (depth_at depths i ≢ unknown_depth
            → Way 4 (0 ∷ 2 ∷ 2 ∷ []) (1 ∷ 1 ∷ 0 ∷ []) depends (0 ∷ []) [] i (depth_at depths i))
          × ((d : ℕ)
              → Way 4 (0 ∷ 2 ∷ 2 ∷ []) (1 ∷ 1 ∷ 0 ∷ []) depends (0 ∷ []) [] i d
              → depth_at depths i ≤ d))
compute-shortest_example = compute-shortest 4 (0 ∷ 2 ∷ 2 ∷ []) (1 ∷ 1 ∷ 0 ∷ []) depends (0 ∷ []) []
