-- ===== src/Depgraph/Distance.antt =====
-- What the relationships of a document mean (backend/internal/depgraph/depth.go): who depends on whom,
-- and how far a package is from the product.
use mathlib.Core.List.Memᴰ
use bomhort.Base.{
  true, ℕ, suc, ◌<◌, ◌≤◌, Text, false, ◌||◌, List, [], ◌∷◌, Memᴰ, leb, eqb, eqb_iff, ◌≡◌, ◌≢◌, ◌↔◌,
  inl, inr, refl, sym, ap, arith, Bool-cases,
}
use bomhort.Depgraph.{
  children, EdgeDirection, ignore, forward, backward, classify_relationship, type_at, types_behind,
  Edges, directed, walk_edges,
}

-- The document says that the first package depends on the second: some relationship between two
-- different packages in range has a type of this direction. A missing type is the empty text.
pub data Depends (n : ℕ) : List ℕ → List ℕ → List Text → ℕ → ℕ → Type 0 where
  forwards :
      {sources targets : List ℕ} {types : List Text} {i j : ℕ}
      → i < n
      → j < n
      → i ≢ j
      → classify_relationship (type_at types) ≡ forward
      → Depends n (i ∷ sources) (j ∷ targets) types i j
  backwards :
      {sources targets : List ℕ} {types : List Text} {i j : ℕ}
      → i < n
      → j < n
      → i ≢ j
      → classify_relationship (type_at types) ≡ backward
      → Depends n (j ∷ sources) (i ∷ targets) types i j
  later :
      {s t : ℕ} {sources targets : List ℕ} {types : List Text} {i j : ℕ}
      → Depends n sources targets (types_behind types) i j
      → Depends n (s ∷ sources) (t ∷ targets) types i j

-- A package that depends on others while no package depends on it.
abbrev pub IsOrigin : (ℕ → ℕ → Type 0) → ℕ → Type 0
IsOrigin Leads i = ((j : ℕ) → ¬ Leads j i) × ((j : ℕ) × Leads i j)

-- Where a walk begins, with the depth given there: a root, a direct dependency, or, without any of
-- these in range, the only package that depends on others while no package depends on it.
pub data Begins (n : ℕ) (Leads : ℕ → ℕ → Type 0) (roots seeds : List ℕ) : ℕ → ℕ → Type 0 where
  at_root : {i : ℕ} → i < n → Memᴰ i roots → Begins n Leads roots seeds i 0
  at_seed : {i : ℕ} → i < n → Memᴰ i seeds → Begins n Leads roots seeds i 1
  at_origin :
      {i : ℕ}
      → ((j : ℕ) → Memᴰ j roots → n ≤ j)
      → ((j : ℕ) → Memᴰ j seeds → n ≤ j)
      → IsOrigin Leads i
      → ((j : ℕ) → IsOrigin Leads j → j ≡ i)
      → Begins n Leads roots seeds i 0

-- A way from a beginning to a package, of so many steps.
pub data Distance (Start Leads : ℕ → ℕ → Type 0) : ℕ → ℕ → Type 0 where
  begin : {i d : ℕ} → Start i d → Distance Start Leads i d
  onward : {i j d : ℕ} → Distance Start Leads i d → Leads i j → Distance Start Leads j (suc d)

abbrev pub Ends : ℕ → ℕ → ℕ → Type 0
Ends n i j = (i < n) × (j < n) × (i ≢ j)

test-Ends : (n i j : ℕ) → (leb n i || leb n j || eqb i j) ≡ false → Ends n i j
test-Ends n i j h = (ground arith, ground arith, ground (arith, eqb_iff i j))

Ends-test : (n i j : ℕ) → Ends n i j → (leb n i || leb n j || eqb i j) ≡ false
Ends-test n i j (p, q, r) = ground (arith, eqb_iff i j)

pub Depends-Ends :
    {n : ℕ} {sources targets : List ℕ} {types : List Text} {i j : ℕ}
    → Depends n sources targets types i j
    → Ends n i j
Depends-Ends (forwards p q r e) = (p, q, r)
Depends-Ends (backwards p q r e) = (p, q, r)
Depends-Ends (later d) = Depends-Ends d

walk_edges-Depends :
    (n : ℕ) (sources targets : List ℕ) (types : List Text) (i j : ℕ)
    → Memᴰ (i, j) (walk_edges n sources targets types)
    → Depends n sources targets types i j
unfolding walk_edges
walk_edges-Depends n [] targets types i j m = absurd (Memᴰ.not-nil m)
walk_edges-Depends n (s ∷ sources) [] types i j m = absurd (Memᴰ.not-nil m)
walk_edges-Depends n (s ∷ sources) (t ∷ targets) types i j m =
    let rest = walk_edges-Depends n sources targets (types_behind types) i j in
    elim (Bool-cases (leb n s || leb n t || eqb s t)) [
      | inl e ↦ later (rest (rw e at m))
      | inr e ↦
          let (p, q, r) = test-Ends n s t e in
          directed-Depends (classify_relationship (type_at types)) refl p q r rest (rw e at m)
    ]
  where
    directed-Depends :
        (c : EdgeDirection)
        → classify_relationship (type_at types) ≡ c
        → s < n
        → t < n
        → s ≢ t
        → (Memᴰ (i, j) (walk_edges n sources targets (types_behind types))
            → Depends n sources targets (types_behind types) i j)
        → Memᴰ (i, j) (directed c s t (walk_edges n sources targets (types_behind types)))
        → Depends n (s ∷ sources) (t ∷ targets) types i j
    directed-Depends ignore c p q r rest m = later (rest m)
    directed-Depends forward c p q r rest m = elim (Memᴰ.cases_cons m) [
      | inl e ↦ rw (ap (λ (x : ℕ × ℕ). x.0) e, ap (λ (x : ℕ × ℕ). x.1) e) (forwards p q r c)
      | inr k ↦ later (rest k)
    ]
    directed-Depends backward c p q r rest m = elim (Memᴰ.cases_cons m) [
      | inl e ↦
          rw (ap (λ (x : ℕ × ℕ). x.0) e, ap (λ (x : ℕ × ℕ). x.1) e)
            (backwards q p (λ k. r (sym k)) c)
      | inr k ↦ later (rest k)
    ]

Memᴰ-directed :
    (c : EdgeDirection) (s t : ℕ) (e : ℕ × ℕ) (edges : Edges)
    → Memᴰ e edges
    → Memᴰ e (directed c s t edges)
Memᴰ-directed ignore s t e edges m = m
Memᴰ-directed forward s t e edges m = Memᴰ.tail m
Memᴰ-directed backward s t e edges m = Memᴰ.tail m

Depends-walk_edges :
    (n : ℕ) (sources targets : List ℕ) (types : List Text) (i j : ℕ)
    → Depends n sources targets types i j
    → Memᴰ (i, j) (walk_edges n sources targets types)
unfolding walk_edges
Depends-walk_edges n [] targets types i j d = elim d [ ]
Depends-walk_edges n (s ∷ sources) [] types i j d = elim d [ ]
Depends-walk_edges n (s ∷ sources) (t ∷ targets) types i j (forwards p q r c) =
    rw (Ends-test n i j (p, q, r), c) (Memᴰ.head refl)
Depends-walk_edges n (s ∷ sources) (t ∷ targets) types i j (backwards p q r c) =
    rw (Ends-test n j i (q, p, λ k. r (sym k)), c) (Memᴰ.head refl)
Depends-walk_edges n (s ∷ sources) (t ∷ targets) types i j (later d) =
    let rest = Depends-walk_edges n sources targets (types_behind types) i j d in
    elim (Bool-cases (leb n s || leb n t || eqb s t)) [
      | inl e ↦ rw e rest
      | inr e ↦ rw e (
          Memᴰ-directed (classify_relationship (type_at types)) s t (i, j)
            (walk_edges n sources targets (types_behind types)) rest)
    ]

-- The edges of the walk are the dependencies of the document.
pub walk_edges_iff :
    (n : ℕ) (sources targets : List ℕ) (types : List Text) (i j : ℕ)
    → Memᴰ (i, j) (walk_edges n sources targets types) ↔ Depends n sources targets types i j
walk_edges_iff n sources targets types i j =
    (walk_edges-Depends n sources targets types i j, Depends-walk_edges n sources targets types i j)

-- adj[i] holds the ends of the edges from i.
pub Memᴰ-children : (edges : Edges) (i j : ℕ) → Memᴰ j (children edges i) ↔ Memᴰ (i, j) edges
unfolding children
Memᴰ-children edges i j = (into edges, out edges)
  where
    into : (edges : Edges) → Memᴰ j (children edges i) → Memᴰ (i, j) edges
    into [] m = absurd (Memᴰ.not-nil m)
    into ((u, v) ∷ edges) m = elim (Bool-cases (eqb u i)) [
      | inl e ↦ elim (Memᴰ.cases_cons (rw e at m)) [
        | inl k ↦ let same : u ≡ i = ground arith in Memᴰ.head (λ t. (sym same t, k t))
        | inr k ↦ Memᴰ.tail (into edges k)
      ]
      | inr e ↦ Memᴰ.tail (into edges (rw e at m))
    ]

    out : (edges : Edges) → Memᴰ (i, j) edges → Memᴰ j (children edges i)
    out [] m = absurd (Memᴰ.not-nil m)
    out ((u, v) ∷ edges) m = elim (Memᴰ.cases_cons m) [
      | inl k ↦
          let first : eqb u i ≡ true = (eqb_iff u i).1 (sym (ap (λ (x : ℕ × ℕ). x.0) k)) in
          rw first (Memᴰ.head (ap (λ (x : ℕ × ℕ). x.1) k))
      | inr k ↦ elim (Bool-cases (eqb u i)) [
        | inl e ↦ rw e (Memᴰ.tail (out edges k))
        | inr e ↦ rw e (out edges k)
      ]
    ]
