-- ===== src/Depgraph/Origin.antt =====
-- The packages from which the walk of backend/internal/depgraph/depth.go starts when the document names
-- no root.
use mathlib.Core.List.Memᴰ
use bomhort.Base.{
  zero, ap, ◌&&◌, sym, subst, not, eqb_iff, eqb, true, Bool-cases, Bool, ℕ, suc, ◌<◌, ◌≤◌, ◌+◌,
  List, [], ◌∷◌, Memᴰ, ◌≡◌, ◌↔◌, inl, inr, refl, arith,
}
use bomhort.Depgraph.{Edges, children, has_parent, has_child, candidates}
use bomhort.Depgraph.Distance.{IsOrigin, Memᴰ-children}

has_parent-elim : (edges : Edges) (j : ℕ) → has_parent edges j ≡ true → (i : ℕ) × Memᴰ (i, j) edges
unfolding has_parent
has_parent-elim [] j h = cc
has_parent-elim ((u, v) ∷ edges) j h = elim (Bool-cases (eqb v j)) [
  | inl e ↦ let same : v ≡ j = ground arith in (u, Memᴰ.head (λ t. (u, sym same t)))
  | inr e ↦ let (i, m) = has_parent-elim edges j (rw e at h) in (i, Memᴰ.tail m)
]

has_parent-intro : (edges : Edges) (i j : ℕ) → Memᴰ (i, j) edges → has_parent edges j ≡ true
unfolding has_parent
has_parent-intro [] i j m = absurd (Memᴰ.not-nil m)
has_parent-intro ((u, v) ∷ edges) i j m = elim (Memᴰ.cases_cons m) [
  | inl e ↦ rw ((eqb_iff v j).1 (sym (ap (λ (x : ℕ × ℕ). x.1) e))) refl
  | inr k ↦ ground (arith, has_parent-intro edges i j k)
]

has_child_iff : (cs : List ℕ) → (has_child cs ≡ true) ↔ ((j : ℕ) × Memᴰ j cs)
has_child_iff [] = (λ h. cc, λ (j, m). absurd (Memᴰ.not-nil m))
has_child_iff (c ∷ cs) = (λ h. (c, Memᴰ.head refl), λ m. refl)

abbrev is_candidate : Edges → ℕ → Bool
is_candidate edges i = not (has_parent edges i) && has_child (children edges i)

Memᴰ-candidates :
    (edges : Edges) (i k j : ℕ)
    → Memᴰ j (candidates edges i k)
    → (i ≤ j) × (is_candidate edges j ≡ true)
unfolding candidates
Memᴰ-candidates edges i zero j m = absurd (Memᴰ.not-nil m)
Memᴰ-candidates edges i (suc k) j m =
    let rest = Memᴰ-candidates edges (suc i) k j in
    elim (Bool-cases (is_candidate edges i)) [
      | inl e ↦ elim (Memᴰ.cases_cons (rw e at m)) [
        | inl same ↦ (omega arith, rw same e)
        | inr t ↦ let (le, q) = rest t in (omega arith, q)
      ]
      | inr e ↦ let (le, q) = rest (rw e at m) in (omega arith, q)
    ]

candidates-Memᴰ :
    (edges : Edges) (i k j : ℕ)
    → i ≤ j
    → j < i + k
    → is_candidate edges j ≡ true
    → Memᴰ j (candidates edges i k)
unfolding candidates
candidates-Memᴰ edges i zero j le lt h = absurd (omega arith)
candidates-Memᴰ edges i (suc k) j le lt h = elim (Bool-cases (eqb i j)) [
  | inl same ↦
      let e : i ≡ j = ground arith in
      rw (subst (λ x. is_candidate edges x ≡ true) (sym e) h) (Memᴰ.head (sym e))
  | inr other ↦
      let rest = candidates-Memᴰ edges (suc i) k j (ground arith) (omega arith) h in
      elim (Bool-cases (is_candidate edges i)) [ inl e ↦ rw e (Memᴰ.tail rest) | inr e ↦ rw e rest ]
]

pub candidates-lt :
    (edges : Edges) (i k c d : ℕ) (cs : List ℕ) → candidates edges i k ≡ c ∷ d ∷ cs → c < d
unfolding candidates
candidates-lt edges i zero c d cs h = cc
candidates-lt edges i (suc k) c d cs h =
    let rest = candidates-lt edges (suc i) k c d cs in
    elim (Bool-cases (is_candidate edges i)) [
      | inl e ↦
          let parts : i ∷ candidates edges (suc i) k ≡ c ∷ d ∷ cs = rw e at h in
          let head : i ≡ c = cc in
          let tail : candidates edges (suc i) k ≡ d ∷ cs = cc in
          omega (arith, (Memᴰ-candidates edges (suc i) k d (rw tail (Memᴰ.head refl))).0)
      | inr e ↦ rest (rw e at h)
    ]

-- The candidates are the packages that nothing depends on but that depend on others.
pub candidates_iff :
    (n : ℕ) (edges : Edges) (Leads : ℕ → ℕ → Type 0)
    → ((i j : ℕ) → Memᴰ (i, j) edges ↔ Leads i j)
    → ((i j : ℕ) → Leads i j → i < n)
    → (i : ℕ) → Memᴰ i (candidates edges 0 n) ↔ IsOrigin Leads i
candidates_iff n edges Leads edge starts i = (into, out)
  where
    into : Memᴰ i (candidates edges 0 n) → IsOrigin Leads i
    into m =
        let (le, test) = Memᴰ-candidates edges 0 n i m in
        let (j, l) = (has_child_iff (children edges i)).0 (ground arith) in
        (
          λ j l. let p = has_parent-intro edges j i ((edge j i).1 l) in absurd (ground arith),
          (j, (edge i j).0 ((Memᴰ-children edges i j).0 l)),
        )

    out : IsOrigin Leads i → Memᴰ i (candidates edges 0 n)
    out (no_parent, (j, l)) =
        let child =
          (has_child_iff (children edges i)).1 (j, (Memᴰ-children edges i j).1 ((edge i j).1 l)) in
        candidates-Memᴰ edges 0 n i (omega arith) (omega (arith, starts i j l))
          (elim (Bool-cases (has_parent edges i)) [
            | inl e ↦
                let (u, m) = has_parent-elim edges i e in absurd (no_parent u ((edge u i).0 m))
            | inr e ↦ rw (e, child) refl
          ])
