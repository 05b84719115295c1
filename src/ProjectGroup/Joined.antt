-- ===== src/ProjectGroup/Joined.antt =====
-- What the families of `Resolve` (backend/internal/projectgroup/projectgroup.go) make of their members.
use mathlib.Core.List.Memᴰ
use bomhort.Base.{
  Distinct-right, Distinct-left, Distinct-apart, map-Memᴰ, ◌⊎◌, ◌⊎◌, subst, ==_refl, Text, true,
  false, Option, some, none, List, [], ◌∷◌, keep, ◌==◌, ==_iff, lookup, insert, lookup-insert,
  or_else, Distinct, Distinct-head, Distinct-tail, Memᴰ, ◌≡◌, ◌≢◌, inl, inr, refl, sym, ap, ◌∙◌,
  arith, Bool-cases, if◌then◌else◌,
}
use bomhort.ProjectGroup.{Assignment}
use bomhort.ProjectGroup.Resolve.{
  Candidate, Families, Assignments, is_top, automatic, family_label, join_head, join_label, join_by,
  join_families,
}
use bomhort.ProjectGroup.Families.{names_of, grouped}

lookup-other :
    (q : Text) (m : Candidate) (a : Assignment) (out : Assignments)
    → m.project ≢ q
    → lookup q (insert m.project a out) ≡ lookup q out
lookup-other q m a out h =
    let other : (m.project == q) ≡ false = ground (arith, ==_iff m.project q) in
    lookup-insert m.project q a out ∙ rw other refl

join_label-other :
    (q label : Text) (ms : List Candidate) (out : Assignments)
    → ¬ Memᴰ q (names_of ms)
    → lookup q (join_label label ms out) ≡ lookup q out
unfolding join_label
join_label-other q label [] out h = refl
join_label-other q label (m ∷ ms) out h =
    join_label-other q label ms (insert m.project (automatic label m) out) (λ k. h (Memᴰ.tail k))
    ∙ lookup-other q m (automatic label m) out (λ e. h (Memᴰ.head (sym e)))

join_label-own :
    (c : Candidate) (label : Text) (ms : List Candidate) (out : Assignments)
    → Distinct (names_of ms)
    → Memᴰ c ms
    → lookup c.project (join_label label ms out) ≡ some (automatic label c)
unfolding join_label
join_label-own c label [] out d m = absurd (Memᴰ.not-nil m)
join_label-own c label (x ∷ ms) out d m = elim (Memᴰ.cases_cons m) [
  | inl e ↦ rw e (
      join_label-other x.project label ms (insert x.project (automatic label x) out)
        (Distinct-head d)
      ∙ lookup-insert x.project x.project (automatic label x) out
      ∙ rw (==_refl x.project) refl)
  | inr k ↦ join_label-own c label ms (insert x.project (automatic label x) out) (Distinct-tail d) k
]

join_head-other :
    (q head : Text) (ms : List Candidate) (out : Assignments)
    → ¬ Memᴰ q (names_of ms)
    → lookup q (join_head head ms out) ≡ lookup q out
unfolding join_head
join_head-other q head [] out h = refl
join_head-other q head (m ∷ ms) out h = elim (Bool-cases (m.project == head)) [
  | inl e ↦ rw e (join_head-other q head ms out (λ k. h (Memᴰ.tail k)))
  | inr e ↦ rw e (
      join_head-other q head ms (insert m.project (automatic head m) out) (λ k. h (Memᴰ.tail k))
      ∙ lookup-other q m (automatic head m) out (λ s. h (Memᴰ.head (sym s))))
]

-- The head has no parent, every other member has the head.
abbrev under : Text → Candidate → Option Assignment
under head c = if c.project == head then none else some (automatic head c)

join_head-own :
    (c : Candidate) (head : Text) (ms : List Candidate) (out : Assignments)
    → Distinct (names_of ms)
    → Memᴰ c ms
    → lookup c.project (join_head head ms out) ≡ or_else (under head c) (lookup c.project out)
unfolding join_head
join_head-own c head [] out d m = absurd (Memᴰ.not-nil m)
join_head-own c head (x ∷ ms) out d m = elim (Memᴰ.cases_cons m) [
  | inl e ↦ rw e (first (Bool-cases (x.project == head)))
  | inr k ↦ elim (Bool-cases (x.project == head)) [
    | inl b ↦ rw b (join_head-own c head ms out (Distinct-tail d) k)
    | inr b ↦
        let apart =
          lookup-other c.project x (automatic head x) out
            (λ s. Distinct-head d (rw s (map-Memᴰ (λ (y : Candidate). y.project) c ms k))) in
        rw b (
          join_head-own c head ms (insert x.project (automatic head x) out) (Distinct-tail d) k
          ∙ ap (or_else (under head c)) apart)
  ]
]
  where
    first :
        ((x.project == head) ≡ true) ⊎ ((x.project == head) ≡ false)
        → lookup x.project (join_head head (x ∷ ms) out)
          ≡ or_else (under head x) (lookup x.project out)
    first (inl b) = rw b (join_head-other x.project head ms out (Distinct-head d))
    first (inr b) = rw b (
        join_head-other x.project head ms (insert x.project (automatic head x) out)
          (Distinct-head d)
        ∙ lookup-insert x.project x.project (automatic head x) out
        ∙ rw (==_refl x.project) refl)

-- The parent of a member, by the top-level projects among the members.
abbrev pub parent_by : Candidate → List Candidate → List Candidate → Option Assignment
parent_by c [] [] = none
parent_by c [] (m ∷ []) = none
parent_by c [] (m ∷ n ∷ ms) = some (automatic (family_label m.owner [] (m ∷ n ∷ ms)) c)
parent_by c (top ∷ []) ms = under top.project c
parent_by c (top ∷ other ∷ tops) ms = none

join_by-own :
    (c : Candidate) (tops ms : List Candidate) (out : Assignments)
    → Distinct (names_of ms)
    → Memᴰ c ms
    → lookup c.project (join_by tops ms out) ≡ or_else (parent_by c tops ms) (lookup c.project out)
join_by-own c [] [] out d m = refl
join_by-own c [] (x ∷ []) out d m = refl
join_by-own c [] (x ∷ y ∷ ms) out d m =
    join_label-own c (family_label x.owner [] (x ∷ y ∷ ms)) (x ∷ y ∷ ms) out d m
join_by-own c (top ∷ []) ms out d m = join_head-own c top.project ms out d m
join_by-own c (top ∷ other ∷ tops) ms out d m = refl

join_by-other :
    (q : Text) (tops ms : List Candidate) (out : Assignments)
    → ¬ Memᴰ q (names_of ms)
    → lookup q (join_by tops ms out) ≡ lookup q out
join_by-other q [] [] out h = refl
join_by-other q [] (x ∷ []) out h = refl
join_by-other q [] (x ∷ y ∷ ms) out h =
    join_label-other q (family_label x.owner [] (x ∷ y ∷ ms)) (x ∷ y ∷ ms) out h
join_by-other q (top ∷ []) ms out h = join_head-other q top.project ms out h
join_by-other q (top ∷ other ∷ tops) ms out h = refl

pub join_families-other :
    (q : Text) (families : Families) (out : Assignments)
    → ¬ Memᴰ q (grouped families)
    → lookup q (join_families families out) ≡ lookup q out
unfolding join_families
join_families-other q [] out h = refl
join_families-other q ((key, ms) ∷ families) out h =
    join_families-other q families (join_by (keep is_top ms) ms out)
      (λ k. h (Memᴰ.append_right (names_of ms) k))
    ∙ join_by-other q (keep is_top ms) ms out (λ k. h (Memᴰ.append_left (grouped families) k))

-- A member of one family gets its parent there.
pub join_families-own :
    (c : Candidate) (key : Text) (ms : List Candidate) (families : Families) (out : Assignments)
    → Distinct (grouped families)
    → Memᴰ (key, ms) families
    → Memᴰ c ms
    → lookup c.project (join_families families out)
      ≡ or_else (parent_by c (keep is_top ms) ms) (lookup c.project out)
unfolding join_families
join_families-own c key ms [] out d m k = absurd (Memᴰ.not-nil m)
join_families-own c key ms ((other, ns) ∷ families) out d m k =
    let named : ((xs : List Candidate) → Memᴰ c xs → Memᴰ c.project (names_of xs)) =
      λ xs. map-Memᴰ (λ (y : Candidate). y.project) c xs in
    elim (Memᴰ.cases_cons m) [
      | inl e ↦
          let same : ms ≡ ns = ap (λ (x : Text × List Candidate). x.1) e in
          let here : Memᴰ c ns = subst (Memᴰ c) same k in
          join_families-other c.project families (join_by (keep is_top ns) ns out)
            (λ q. Distinct-apart (names_of ns) (grouped families) d c.project (named ns here) q)
          ∙ join_by-own c (keep is_top ns) ns out (Distinct-left (names_of ns) (grouped families) d)
              here
          ∙ ap
              (λ (xs : List Candidate).
                or_else (parent_by c (keep is_top xs) xs) (lookup c.project out))
              (sym same)
      | inr t ↦
          join_families-own c key ms families (join_by (keep is_top ns) ns out)
            (Distinct-right (names_of ns) (grouped families) d) t k
          ∙ ap (or_else (parent_by c (keep is_top ms) ms)) (
              join_by-other c.project (keep is_top ns) ns out (λ q.
                Distinct-apart (names_of ns) (grouped families) d c.project q
                  (grouped-Memᴰ key ms families t c.project (named ms k))))
    ]
  where
    grouped-Memᴰ :
        (key : Text) (ms : List Candidate) (families : Families)
        → Memᴰ (key, ms) families
        → (q : Text) → Memᴰ q (names_of ms)
        → Memᴰ q (grouped families)
    grouped-Memᴰ key ms [] t q h = absurd (Memᴰ.not-nil t)
    grouped-Memᴰ key ms ((other, ns) ∷ families) t q h = elim (Memᴰ.cases_cons t) [
      | inl e ↦
          let same : ms ≡ ns = ap (λ (x : Text × List Candidate). x.1) e in
          Memᴰ.append_left (grouped families)
            (subst (λ (xs : List Candidate). Memᴰ q (names_of xs)) same h)
      | inr r ↦ Memᴰ.append_right (names_of ns) (grouped-Memᴰ key ms families r q h)
    ]
