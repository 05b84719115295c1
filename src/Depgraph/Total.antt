-- ===== src/Depgraph/Total.antt =====
-- The end of the walk of backend/internal/depgraph/depth.go.
use bomhort.Base.{
  ℕ, zero, suc, ◌+◌, ◌%◌, ◌^◌, ◌≤◌, false, Option, some, none, List, [], ◌∷◌, ◌++◌, eqb, length,
  length-append, Text, ◌≡◌, refl, ap, ◌∙◌, arith, if◌then◌else◌, Bool-cases, inl, inr,
}
use bomhort.Depgraph.{
  unless_seeded, unknown_depth, Edges, Walk, claim, discover, discover_all, all_unknown, start_at,
  seeded, start, expand, walk, compute, candidates, children, walk_edges, depth_at,
}

-- the packages that the walk has not met
unknowns : List ℕ → ℕ
unknowns [] = 0
unknowns (d ∷ depths) = let rest = unknowns depths in if eqb d unknown_depth then suc rest else rest

abbrev work : Walk → ℕ
work w = length w.queue + unknowns w.depths

claim-unknowns :
    (d i : ℕ) (depths ds : List ℕ)
    → eqb d unknown_depth ≡ false
    → claim d i depths ≡ some ds
    → unknowns depths ≡ suc (unknowns ds)
unfolding claim unknowns
claim-unknowns d i [] ds h e = cc
claim-unknowns d zero (x ∷ depths) ds h e = elim (Bool-cases (eqb x unknown_depth)) [
  | inl k ↦ let same : ds ≡ d ∷ depths = ground arith in rw (same) (ground arith)
  | inr k ↦ ground arith
]
claim-unknowns d (suc i) (x ∷ depths) ds h e =
    go (claim d i depths) (λ r k. claim-unknowns d i depths r h k) refl e
  where
    go :
        (o : Option (List ℕ))
        → ((r : List ℕ) → claim d i depths ≡ some r → unknowns depths ≡ suc (unknowns r))
        → claim d i depths ≡ o
        → elim o as (λ _. Option (List ℕ)) [ none ↦ none | some r ↦ some (x ∷ r) ] ≡ some ds
        → unknowns (x ∷ depths) ≡ suc (unknowns ds)
    go none rec k q = cc
    go (some r) rec k q = let same : ds ≡ x ∷ r = cc in let rest = rec r k in rw same (ground arith)

discover-work : (d i : ℕ) (w : Walk) → eqb d unknown_depth ≡ false → work (discover d i w) ≡ work w
unfolding discover
discover-work d i w h = go (claim d i w.depths) refl
  where
    go :
        (o : Option (List ℕ))
        → claim d i w.depths ≡ o
        → work (elim o as (λ _. Walk) [
          | none ↦ w
          | some ds ↦ record { depths = ds; queue = w.queue ++ i ∷ [] }
        ])
          ≡ work w
    go none k = refl
    go (some ds) k =
        omega (arith, claim-unknowns d i w.depths ds h k, length-append w.queue (i ∷ []))

discover_all-work :
    (d : ℕ) (is : List ℕ) (w : Walk)
    → eqb d unknown_depth ≡ false
    → work (discover_all d is w) ≡ work w
unfolding discover_all
discover_all-work d [] w h = refl
discover_all-work d (i ∷ is) w h = discover_all-work d is (discover d i w) h ∙ discover-work d i w h

expand-work : (edges : Edges) (cur : ℕ) (w : Walk) → work (expand edges cur w) ≡ work w
unfolding expand
expand-work edges cur w =
    let next = (depth_at w.depths cur + 1) % 2 ^ 16 in
    elim (Bool-cases (eqb next unknown_depth)) [
      | inl e ↦ rw e refl
      | inr e ↦ rw e (discover_all-work next (children edges cur) w e)
    ]

-- A walk ends within as many rounds as there are packages in the queue or not met.
walk-total :
    (f : ℕ) (edges : Edges) (depths queue : List ℕ)
    → length queue + unknowns depths ≤ f
    → (result : List ℕ) × (walk f edges depths queue ≡ some result)
unfolding walk
walk-total f edges depths [] h = (depths, refl)
walk-total zero edges depths (cur ∷ queue) h = absurd (omega arith)
walk-total (suc f) edges depths (cur ∷ queue) h =
    let w = expand edges cur (record { depths = depths; queue = queue }) in
    walk-total f edges w.depths w.queue
      (omega (arith, expand-work edges cur (record { depths = depths; queue = queue })))

unknowns-all_unknown : (n : ℕ) → unknowns (all_unknown n) ≡ n
unfolding unknowns all_unknown
unknowns-all_unknown zero = refl
unknowns-all_unknown (suc n) = ap suc (unknowns-all_unknown n)

seeded-work : (n : ℕ) (roots seeds : List ℕ) → work (seeded n roots seeds) ≡ n
unfolding seeded
seeded-work n roots seeds =
    let fresh : Walk = record { depths = all_unknown n; queue = [] } in
    omega (
      arith,
      discover_all-work 1 seeds (discover_all 0 roots fresh) refl,
      discover_all-work 0 roots fresh refl,
      unknowns-all_unknown n,
    )

start_at-work : (cs : List ℕ) (w : Walk) → work (start_at cs w) ≡ work w
start_at-work [] w = refl
start_at-work (c ∷ []) w = discover-work 0 c w refl
start_at-work (c ∷ d ∷ cs) w = refl

start-work : (n : ℕ) (edges : Edges) (w : Walk) → work (start n edges w) ≡ work w
unfolding start
start-work n edges w =
    choose w.queue (start_at (candidates edges 0 n) w) (start_at-work (candidates edges 0 n) w)
  where
    choose :
        (queue : List ℕ) (fallback : Walk)
        → work fallback ≡ work w
        → work (unless_seeded queue fallback w) ≡ work w
    choose [] fallback h = h
    choose (i ∷ is) fallback h = refl

-- For any document, well formed or not, the walk ends within one round a package.
pub compute-total :
    (n : ℕ) (sources targets : List ℕ) (types : List Text) (roots direct_seeds : List ℕ)
    → (depths : List ℕ) × (compute n sources targets types roots direct_seeds ≡ some depths)
unfolding compute
compute-total n sources targets types roots direct_seeds =
    let edges = walk_edges n sources targets types in
    let w = start n edges (seeded n roots direct_seeds) in
    walk-total n edges w.depths w.queue (
      omega
        (arith, start-work n edges (seeded n roots direct_seeds), seeded-work n roots direct_seeds))
