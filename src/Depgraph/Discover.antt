-- ===== src/Depgraph/Discover.antt =====
-- One package met by the walk of backend/internal/depgraph/depth.go.
use bomhort.Base.{
  ℕ, zero, suc, ◌<◌, ◌≤◌, Option, some, none, List, [], ◌∷◌, length, eqb, ◌≡◌, ◌≢◌, ◌⊎◌, inl, inr,
  refl, ap, arith, Bool-cases, Option-cases, if◌then◌else◌,
}
use bomhort.Depgraph.{unknown_depth, depth_at, claim}

pub claim-none :
    (d i : ℕ) (depths : List ℕ)
    → claim d i depths ≡ none
    → (length depths ≤ i) ⊎ (depth_at depths i ≢ unknown_depth)
unfolding claim
claim-none d i [] h = inl (omega arith)
claim-none d zero (x ∷ depths) h = inr (ground arith)
claim-none d (suc i) (x ∷ depths) h = elim (Option-cases (claim d i depths)) [
  | inl e ↦ elim (claim-none d i depths e) [ inl k ↦ inl (omega arith) | inr k ↦ inr k ]
  | inr (ds, e) ↦ absurd (ground arith)
]

pub record Claimed (d i : ℕ) (depths ds : List ℕ) : Type 0 where
  pub unmet : depth_at depths i ≡ unknown_depth
  pub in_range : i < length depths
  pub as_long : length ds ≡ length depths
  pub reads : (j : ℕ) → depth_at ds j ≡ (if eqb i j then d else depth_at depths j)

pub claim-some : (d i : ℕ) (depths ds : List ℕ) → claim d i depths ≡ some ds → Claimed d i depths ds
unfolding claim
claim-some d i [] ds h = cc
claim-some d zero (x ∷ depths) ds h = elim (Bool-cases (eqb x unknown_depth)) [
  | inl k ↦
      let same : ds ≡ d ∷ depths = ground arith in
      record {
        unmet = ground arith;
        in_range = omega arith;
        as_long = rw same refl;
        reads = λ j. rw same (read_first j);
      }
  | inr k ↦ absurd (ground arith)
]
  where
    read_first :
        (j : ℕ) → depth_at (d ∷ depths) j ≡ (if eqb zero j then d else depth_at (x ∷ depths) j)
    read_first zero = refl
    read_first (suc j) = ground arith
claim-some d (suc i) (x ∷ depths) ds h = go (claim d i depths) (claim-some d i depths) refl h
  where
    go :
        (o : Option (List ℕ))
        → ((r : List ℕ) → claim d i depths ≡ some r → Claimed d i depths r)
        → claim d i depths ≡ o
        → elim o as (λ _. Option (List ℕ)) [ none ↦ none | some r ↦ some (x ∷ r) ] ≡ some ds
        → Claimed d (suc i) (x ∷ depths) ds
    go none rec k q = cc
    go (some r) rec k q =
        let same : ds ≡ x ∷ r = cc in
        let c = rec r k in
        record {
          unmet = c.unmet;
          in_range = omega (arith, c.in_range);
          as_long = rw same (ap suc c.as_long);
          reads = λ j. rw same (read_later j c);
        }
      where
        read_later :
            (j : ℕ)
            → Claimed d i depths r
            → depth_at (x ∷ r) j ≡ (if eqb (suc i) j then d else depth_at (x ∷ depths) j)
        read_later zero c = ground arith
        read_later (suc j) c = ground (arith, c.reads j)
