-- ===== src/Depgraph/Level.antt =====
-- What one pass of the walk of backend/internal/depgraph/depth.go changes.
use mathlib.Core.List.Memᴰ
use bomhort.Base.{
  ◌≤◌, subst, append_assoc, append-nil, ◌∙◌, ◌∙◌, sym, Option, Bool-cases, ℕ, ◌<◌, some, none, List,
  [], ◌∷◌, ◌++◌, Memᴰ, Memᴰ-append, length, eqb, ◌≡◌, ◌≢◌, ◌⊎◌, inl, inr, refl, arith,
}
use bomhort.Depgraph.{unknown_depth, depth_at, claim, Walk, discover, discover_all}
use bomhort.Depgraph.Discover.{claim-none, Claimed, claim-some}

pub eqb-cases : (x y : ℕ) → (x ≡ y) ⊎ (x ≢ y)
eqb-cases x y = elim (Bool-cases (eqb x y)) [
  | inl e ↦ inl (ground arith)
  | inr e ↦ inr (ground arith)
]

-- From a walk to a later one: known depths stay, and each package met since then has the depth d, is one
-- of the targets, and waits at the end of the queue.
pub record Grows (d : ℕ) (Target : ℕ → Type 0) (w w' : Walk) : Type 0 where
  pub as_long : length w'.depths ≡ length w.depths
  pub kept :
      (i : ℕ) → depth_at w.depths i ≢ unknown_depth → depth_at w'.depths i ≡ depth_at w.depths i
  pub fresh :
      (i : ℕ)
      → depth_at w.depths i ≡ unknown_depth
      → (depth_at w'.depths i ≡ unknown_depth)
        ⊎ ((depth_at w'.depths i ≡ d) × Target i × Memᴰ i w'.queue)
  pub added : List ℕ
  pub behind : w'.queue ≡ w.queue ++ added
  pub at_depth : (i : ℕ) → Memᴰ i added → depth_at w'.depths i ≡ d

Grows-refl : (d : ℕ) (Target : ℕ → Type 0) (w : Walk) → Grows d Target w w
Grows-refl d Target w = record {
  as_long = refl;
  kept = λ i h. refl;
  fresh = λ i h. inl h;
  added = [];
  behind = sym (append-nil w.queue);
  at_depth = λ i m. absurd (Memᴰ.not-nil m);
}

Grows-trans :
    (d : ℕ) (Target : ℕ → Type 0) (u v w : Walk)
    → d ≢ unknown_depth
    → Grows d Target u v
    → Grows d Target v w
    → Grows d Target u w
Grows-trans d Target u v w h g k = record {
  as_long = k.as_long ∙ g.as_long;
  kept = λ i e. k.kept i (rw (g.kept i e) e) ∙ g.kept i e;
  fresh = λ i e. elim (g.fresh i e) [
    | inl x ↦ k.fresh i x
    | inr (x, t, m) ↦ inr (
      k.kept i (λ z. h (sym x ∙ z)) ∙ x,
      t,
      rw k.behind ((Memᴰ-append i v.queue k.added).1 (inl m)),
    )
  ];
  added = g.added ++ k.added;
  behind = k.behind ∙ rw g.behind (append_assoc u.queue g.added k.added);
  at_depth = λ i m. elim ((Memᴰ-append i g.added k.added).0 m) [
    | inl x ↦ let e = g.at_depth i x in k.kept i (λ z. h (sym e ∙ z)) ∙ e
    | inr x ↦ k.at_depth i x
  ];
}

pub discover-Grows :
    (d i : ℕ) (Target : ℕ → Type 0) (w : Walk) → Target i → Grows d Target w (discover d i w)
unfolding discover
discover-Grows d i Target w t = go (claim d i w.depths) refl
  where
    kept_at :
        (ds : List ℕ)
        → Claimed d i w.depths ds
        → (j : ℕ) → depth_at w.depths j ≢ unknown_depth
        → depth_at ds j ≡ depth_at w.depths j
    kept_at ds c j h = elim (Bool-cases (eqb i j)) [
      | inl e ↦
          let same : i ≡ j = ground arith in
          absurd (h (subst (λ x. depth_at w.depths x ≡ unknown_depth) same c.unmet))
      | inr e ↦ c.reads j ∙ rw e refl
    ]

    fresh_at :
        (ds : List ℕ)
        → Claimed d i w.depths ds
        → (j : ℕ) → depth_at w.depths j ≡ unknown_depth
        → (depth_at ds j ≡ unknown_depth)
          ⊎ ((depth_at ds j ≡ d) × Target j × Memᴰ j (w.queue ++ i ∷ []))
    fresh_at ds c j h = elim (Bool-cases (eqb i j)) [
      | inl e ↦
          let same : i ≡ j = ground arith in
          inr (
            c.reads j ∙ rw e refl,
            subst Target same t,
            (Memᴰ-append j w.queue (i ∷ [])).1 (inr (Memᴰ.head (sym same))),
          )
      | inr e ↦ inl (c.reads j ∙ rw e h)
    ]

    go :
        (o : Option (List ℕ))
        → claim d i w.depths ≡ o
        → Grows d Target w (elim o as (λ _. Walk) [
          | none ↦ w
          | some ds ↦ record { depths = ds; queue = w.queue ++ i ∷ [] }
        ])
    go none e = Grows-refl d Target w
    go (some ds) e =
        let c = claim-some d i w.depths ds e in
        record {
          as_long = c.as_long;
          kept = λ j h. kept_at ds c j h;
          fresh = λ j h. fresh_at ds c j h;
          added = i ∷ [];
          behind = refl;
          at_depth = λ j m. rw (Memᴰ.eq_of_singleton m) (ground (arith, c.reads i));
        }

pub discover_all-Grows :
    (d : ℕ) (is : List ℕ) (Target : ℕ → Type 0) (w : Walk)
    → d ≢ unknown_depth
    → ((i : ℕ) → Memᴰ i is → Target i)
    → Grows d Target w (discover_all d is w)
unfolding discover_all
discover_all-Grows d [] Target w h t = Grows-refl d Target w
discover_all-Grows d (i ∷ is) Target w h t =
    Grows-trans d Target w (discover d i w) (discover_all d is (discover d i w)) h
      (discover-Grows d i Target w (t i (Memᴰ.head refl)))
      (discover_all-Grows d is Target (discover d i w) h (λ j m. t j (Memᴰ.tail m)))

pub discover-met :
    (d i : ℕ) (w : Walk)
    → d ≢ unknown_depth
    → i < length w.depths
    → depth_at (discover d i w).depths i ≢ unknown_depth
unfolding discover
discover-met d i w h lt = go (claim d i w.depths) refl
  where
    go :
        (o : Option (List ℕ))
        → claim d i w.depths ≡ o
        → depth_at
            (elim o as (λ _. Walk) [
              | none ↦ w
              | some ds ↦ record { depths = ds; queue = w.queue ++ i ∷ [] }
            ]).depths
            i
          ≢ unknown_depth
    go none e = elim (claim-none d i w.depths e) [ inl x ↦ absurd (omega arith) | inr x ↦ x ]
    go (some ds) e =
        let c = claim-some d i w.depths ds e in λ x. h (sym (ground (arith, c.reads i)) ∙ x)

-- Each target in range is met.
pub discover_all-met :
    (d : ℕ) (is : List ℕ) (w : Walk) (i : ℕ)
    → d ≢ unknown_depth
    → Memᴰ i is
    → i < length w.depths
    → depth_at (discover_all d is w).depths i ≢ unknown_depth
unfolding discover_all
discover_all-met d [] w i h m lt = absurd (Memᴰ.not-nil m)
discover_all-met d (j ∷ is) w i h m lt =
    let one = discover-Grows d j (λ _. ℕ) w 0 in
    elim (Memᴰ.cases_cons m) [
      | inl e ↦
          let later = discover_all-Grows d is (λ _. ℕ) (discover d j w) h (λ _ _. 0) in
          let met =
            subst (λ x. depth_at (discover d x w).depths i ≢ unknown_depth) e
              (discover-met d i w h lt) in
          λ x. met (sym (later.kept i met) ∙ x)
      | inr k ↦ discover_all-met d is (discover d j w) i h k (omega (arith, one.as_long))
    ]

-- What becomes of one package between two walks.
pub data Change (d : ℕ) (Target : ℕ → Type 0) (w w' : Walk) (i : ℕ) : Type 0 where
  still_unmet :
      depth_at w.depths i ≡ unknown_depth
      → depth_at w'.depths i ≡ unknown_depth
      → Change d Target w w' i
  as_before :
      depth_at w.depths i ≢ unknown_depth
      → depth_at w'.depths i ≡ depth_at w.depths i
      → Change d Target w w' i
  just_met :
      depth_at w.depths i ≡ unknown_depth
      → depth_at w'.depths i ≡ d
      → Target i
      → Memᴰ i w'.queue
      → Change d Target w w' i

pub change :
    (d : ℕ) (Target : ℕ → Type 0) (w w' : Walk)
    → Grows d Target w w'
    → (i : ℕ) → Change d Target w w' i
change d Target w w' g i = elim (eqb-cases (depth_at w.depths i) unknown_depth) [
  | inl e ↦ elim (g.fresh i e) [ inl x ↦ still_unmet e x | inr (x, t, m) ↦ just_met e x t m ]
  | inr e ↦ as_before e (g.kept i e)
]

-- The depths of a list of packages never fall along it.
pub data Sorted (f : ℕ → ℕ) : List ℕ → Type 0 where
  nil : Sorted f []
  cons : {x : ℕ} {xs : List ℕ} → ((y : ℕ) → Memᴰ y xs → f x ≤ f y) → Sorted f xs → Sorted f (x ∷ xs)

pub Sorted-agree :
    (f g : ℕ → ℕ) (xs : List ℕ) → ((y : ℕ) → Memᴰ y xs → g y ≡ f y) → Sorted f xs → Sorted g xs
Sorted-agree f g [] e s = Sorted.nil
Sorted-agree f g (x ∷ xs) e (Sorted.cons least s) =
    Sorted.cons (λ y m. omega (arith, e x (Memᴰ.head refl), e y (Memᴰ.tail m), least y m))
      (Sorted-agree f g xs (λ y m. e y (Memᴰ.tail m)) s)

pub Sorted-append :
    (f : ℕ → ℕ) (d : ℕ) (xs ys : List ℕ)
    → ((x : ℕ) → Memᴰ x xs → f x ≤ d)
    → ((y : ℕ) → Memᴰ y ys → f y ≡ d)
    → Sorted f xs
    → Sorted f (xs ++ ys)
Sorted-append f d [] [] below at s = Sorted.nil
Sorted-append f d [] (y ∷ ys) below at s =
    Sorted.cons (λ z m. omega (arith, at y (Memᴰ.head refl), at z (Memᴰ.tail m)))
      (Sorted-append f d [] ys below (λ z m. at z (Memᴰ.tail m)) s)
Sorted-append f d (x ∷ xs) ys below at (Sorted.cons least s) =
    Sorted.cons
      (λ z m. elim ((Memᴰ-append z xs ys).0 m) [
        | inl k ↦ least z k
        | inr k ↦ omega (arith, below x (Memᴰ.head refl), at z k)
      ])
      (Sorted-append f d xs ys (λ y m. below y (Memᴰ.tail m)) at s)
