-- ===== src/Depgraph/Nearest.antt =====
-- `MinDepthForPURL` (backend/internal/depgraph/depth.go) against the depths of the packages with a
-- package URL.
use bomhort.Base.{
  ℕ, Text, Bool, true, false, ◌&&◌, ◌||◌, List, [], ◌∷◌, any, leb, ltb, ◌==◌, ◌≡◌, refl, ◌∙◌, arith,
  if◌then◌else◌,
}
use bomhort.Depgraph.{unknown_depth, depth_at, depths_behind, nearest, min_depth_for_purl}

-- The depths of the packages with the package URL; a package without a stored depth counts as unknown.
unfoldable pub depths_of_purl : List Text → List ℕ → Text → List ℕ
depths_of_purl [] depths purl = []
depths_of_purl (p ∷ purls) depths purl =
    let rest = depths_of_purl purls (depths_behind depths) purl in
    if p == purl then depth_at depths 0 ∷ rest else rest

nearest-any :
    (purls : List Text) (depths : List ℕ) (purl : Text) (best k : ℕ)
    → leb (nearest purls depths purl best) k
      ≡ (leb best k || any (λ d. leb d k) (depths_of_purl purls depths purl))
unfolding nearest depths_of_purl
nearest-any [] depths purl best k = ground arith
nearest-any (p ∷ purls) depths purl best k =
    nearest-any purls (depths_behind depths) purl
      (if p == purl && ltb (depth_at depths 0) best then depth_at depths 0 else best) k
    ∙ regroup (p == purl) (depth_at depths 0) (depths_of_purl purls (depths_behind depths) purl)
  where
    regroup :
        (b : Bool) (d : ℕ) (rest : List ℕ)
        → (leb (if b && ltb d best then d else best) k || any (λ e. leb e k) rest)
          ≡ (leb best k || any (λ e. leb e k) (if b then d ∷ rest else rest))
    regroup false d rest = refl
    regroup true d rest = pick (any (λ e. leb e k) rest)
      where
        pick :
            (x : Bool)
            → (leb (if ltb d best then d else best) k || x) ≡ (leb best k || (leb d k || x))
        pick x = ground arith

-- The depth for a package URL is at most `k` exactly if `k` is no less than the mark of an unknown depth
-- or some package with that URL has a depth of at most `k`.
pub min_depth_for_purl-any :
    (purls : List Text) (depths : List ℕ) (purl : Text) (k : ℕ)
    → leb (min_depth_for_purl purls depths purl) k
      ≡ (leb unknown_depth k || any (λ d. leb d k) (depths_of_purl purls depths purl))
unfolding min_depth_for_purl
min_depth_for_purl-any purls depths purl k = nearest-any purls depths purl unknown_depth k
