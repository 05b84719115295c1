-- ===== src/Depgraph/Shortest.antt =====
-- The depths of backend/internal/depgraph/depth.go and the lengths of shortest ways.
use mathlib.Core.List.Memᴰ
use bomhort.Base.{
  some, leb, Bool-cases, subst, ◌⊎◌, ◌≢◌, ◌⊎◌, ◌≢◌, Text, ℕ, ◌<◌, ◌≤◌, List, [], ◌∷◌, Memᴰ, ◌≡◌,
  ◌↔◌, inl, inr, refl, arith,
}
use bomhort.Depgraph.{
  Edges, Walk, depth_at, unknown_depth, all_unknown, discover_all, discover, seeded, start,
  start_at, unless_seeded, candidates, walk_edges, compute,
}
use bomhort.Depgraph.Distance.{
  Distance, Depends, Depends-Ends, walk_edges_iff, Begins, at_root, at_seed, at_origin, IsOrigin,
}
use bomhort.Depgraph.Level.{discover_all-Grows, discover-Grows, discover-met}
use bomhort.Depgraph.Origin.{candidates_iff, candidates-lt}
use bomhort.Depgraph.Seeding.{
  known-lt, Ready, Ready-grown, Ready-Inv, Ready-blank, Ready-discover_all,
}
use bomhort.Depgraph.Total.{compute-total}
use bomhort.Depgraph.Invariant.{Inv, walk-Distance}

-- The depths with which roots and direct dependencies are met.
abbrev Named : List ℕ → List ℕ → ℕ → ℕ → Type 0
Named roots seeds i d = (Memᴰ i roots × (d ≡ 0)) ⊎ (Memᴰ i seeds × (d ≡ 1))

record Seeded (n : ℕ) (roots seeds : List ℕ) (w : Walk) : Type 0 where
  ready : Ready n 1 (Named roots seeds) w
  at_roots : (i : ℕ) → i < n → Memᴰ i roots → depth_at w.depths i ≡ 0
  at_seeds : (i : ℕ) → i < n → Memᴰ i seeds → depth_at w.depths i ≢ unknown_depth

seeded-Seeded : (n : ℕ) (roots seeds : List ℕ) → Seeded n roots seeds (seeded n roots seeds)
unfolding seeded
seeded-Seeded n roots seeds =
    let named = Named roots seeds in
    let blank : Walk = record { depths = all_unknown n; queue = [] } in
    let first = discover_all 0 roots blank in
    let (r0, met0) =
      Ready-discover_all n 0 0 named blank roots (Ready-blank n named) (omega arith) (omega arith)
        (λ i m. inl (m, refl)) in
    let (r1, met1) =
      Ready-discover_all n 0 1 named first seeds r0 (omega arith) (omega arith)
        (λ i m. inr (m, refl)) in
    let g =
      discover_all-Grows 1 seeds (λ i. named i 1) first (omega arith) (λ i m. inr (m, refl)) in
    record {
      ready = r1;
      at_roots =
          λ i lt m. let known = met0 i lt m in omega (arith, g.kept i known, r0.capped i known);
      at_seeds = met1;
    }

module _ (n : ℕ) (sources targets : List ℕ) (types : List Text) (roots seeds : List ℕ) where
  abbrev edges : Edges
  edges = walk_edges n sources targets types

  abbrev Leads : ℕ → ℕ → Type 0
  Leads = Depends n sources targets types

  abbrev Start : ℕ → ℕ → Type 0
  Start = Begins n Leads roots seeds

  edge : (i j : ℕ) → Memᴰ (i, j) edges ↔ Leads i j
  edge i j = walk_edges_iff n sources targets types i j

  Start-early : (i d : ℕ) → Start i d → d < unknown_depth
  Start-early i d (at_root lt m) = omega arith
  Start-early i d (at_seed lt m) = omega arith
  Start-early i d (at_origin r s o u) = omega arith

  abbrev IsStarted : Walk → Type 0
  IsStarted w = Inv n edges Start Leads edge (λ i j l. (Depends-Ends l).1) Start-early w

  origin : (i : ℕ) → Memᴰ i (candidates edges 0 n) ↔ IsOrigin Leads i
  origin i = candidates_iff n edges Leads edge (λ i j l. (Depends-Ends l).0) i

  Named-Start : (i d : ℕ) → i < n → Named roots seeds i d → Start i d
  Named-Start i d lt (inl (m, e)) = rw e (at_root lt m)
  Named-Start i d lt (inr (m, e)) = rw e (at_seed lt m)

  -- Something waits: the roots and the direct dependencies in range.
  IsStarted-named : (w : Walk) (u : ℕ) → Seeded n roots seeds w → Memᴰ u w.queue → IsStarted w
  IsStarted-named w u s m =
      Ready-Inv n 1 edges Start Leads edge (λ i j l. (Depends-Ends l).1) Start-early
        (Named roots seeds) w s.ready (omega arith) Named-Start started
    where
      started : (i d : ℕ) → Start i d → depth_at w.depths i ≤ d
      started i d (at_root lt k) = omega (arith, s.at_roots i lt k)
      started i d (at_seed lt k) = s.ready.capped i (s.at_seeds i lt k)
      started i d (at_origin r t o unique) =
          let known = s.ready.queued u m in
          let lt = known-lt w.depths u known in
          elim (s.ready.from u known) [
            | inl (k, e) ↦ absurd (omega (arith, r u k, s.ready.sized))
            | inr (k, e) ↦ absurd (omega (arith, t u k, s.ready.sized))
          ]

  nobody_met :
      (w : Walk)
      → Seeded n roots seeds w
      → w.queue ≡ []
      → (i : ℕ) → ¬ (depth_at w.depths i ≢ unknown_depth)
  nobody_met w s e i h = Memᴰ.not-nil (subst (Memᴰ i) e (s.ready.waiting i h))

  -- Nothing waits: no root and no direct dependency is in range.
  none_named :
      (w : Walk)
      → Seeded n roots seeds w
      → w.queue ≡ []
      → ((i : ℕ) → Memᴰ i roots → n ≤ i) × ((i : ℕ) → Memᴰ i seeds → n ≤ i)
  none_named w s e = (
    λ i m. elim (Bool-cases (leb n i)) [
      | inl k ↦ ground arith
      | inr k ↦
          let lt : i < n = ground arith in
          absurd (nobody_met w s e i (λ x. ground (arith, s.at_roots i lt m)))
    ],
    λ i m. elim (Bool-cases (leb n i)) [
      | inl k ↦ ground arith
      | inr k ↦ let lt : i < n = ground arith in absurd (nobody_met w s e i (s.at_seeds i lt m))
    ],
  )

  IsStarted-idle :
      (w : Walk)
      → Seeded n roots seeds w
      → w.queue ≡ []
      → ((i : ℕ) → IsOrigin Leads i → ¬ ((j : ℕ) → IsOrigin Leads j → j ≡ i))
      → IsStarted w
  IsStarted-idle w s e several =
      Ready-Inv n 1 edges Start Leads edge (λ i j l. (Depends-Ends l).1) Start-early
        (Named roots seeds) w s.ready (omega arith) Named-Start started
    where
      started : (i d : ℕ) → Start i d → depth_at w.depths i ≤ d
      started i d (at_root lt k) = omega (arith, s.at_roots i lt k)
      started i d (at_seed lt k) = s.ready.capped i (s.at_seeds i lt k)
      started i d (at_origin r t o unique) = absurd (several i o unique)

  Ready-unmet : (w : Walk) → Seeded n roots seeds w → w.queue ≡ [] → Ready n 0 Start w
  Ready-unmet w s e = record {
    sized = s.ready.sized;
    bounded = s.ready.bounded;
    waiting = s.ready.waiting;
    queued = s.ready.queued;
    from = λ i h. absurd (nobody_met w s e i h);
    sorted = s.ready.sorted;
    capped = λ i h. absurd (nobody_met w s e i h);
  }

  IsStarted-start_at :
      (w : Walk) (cs : List ℕ)
      → Seeded n roots seeds w
      → w.queue ≡ []
      → candidates edges 0 n ≡ cs
      → IsStarted (start_at cs w)
  IsStarted-start_at w [] s e c =
      IsStarted-idle w s e (λ i o u. Memᴰ.not-nil (subst (Memᴰ i) c ((origin i).1 o)))
  IsStarted-start_at w (a ∷ b ∷ cs) s e c = IsStarted-idle w s e (λ i o u.
      let first = u a ((origin a).0 (rw c (Memᴰ.head refl))) in
      let second = u b ((origin b).0 (rw c (Memᴰ.tail (Memᴰ.head refl)))) in
      absurd (omega (arith, candidates-lt edges 0 n a b cs c)))
  IsStarted-start_at w (a ∷ []) s e c =
      let (no_root, no_seed) = none_named w s e in
      let is_origin = (origin a).0 (rw c (Memᴰ.head refl)) in
      let (j, leads) = is_origin.1 in
      let unique : ((i : ℕ) → IsOrigin Leads i → i ≡ a) =
        λ i o. Memᴰ.eq_of_singleton (subst (Memᴰ i) c ((origin i).1 o)) in
      let grown =
        Ready-grown n 0 0 Start w (discover 0 a w) (Ready-unmet w s e) (omega arith) (omega arith)
          (discover-Grows 0 a (λ i. Start i 0) w (at_origin no_root no_seed is_origin unique)) in
      let met =
        discover-met 0 a w (omega arith) (omega (arith, s.ready.sized, (Depends-Ends leads).0)) in
      Ready-Inv n 0 edges Start Leads edge (λ i j l. (Depends-Ends l).1) Start-early Start
        (discover 0 a w) grown (omega arith) (λ i d lt b. b)
        (started no_root no_seed unique met grown)
    where
      started :
          ((i : ℕ) → Memᴰ i roots → n ≤ i)
          → ((i : ℕ) → Memᴰ i seeds → n ≤ i)
          → ((i : ℕ) → IsOrigin Leads i → i ≡ a)
          → depth_at (discover 0 a w).depths a ≢ unknown_depth
          → Ready n 0 Start (discover 0 a w)
          → (i d : ℕ) → Start i d
          → depth_at (discover 0 a w).depths i ≤ d
      started no_root no_seed unique met grown i d (at_root lt m) =
          absurd (omega (arith, no_root i m))
      started no_root no_seed unique met grown i d (at_seed lt m) =
          absurd (omega (arith, no_seed i m))
      started no_root no_seed unique met grown i d (at_origin r t o u) =
          rw (unique i o) (grown.capped a met)

  IsStarted-start : IsStarted (start n edges (seeded n roots seeds))
  unfolding start
  IsStarted-start =
      let w = seeded n roots seeds in choose w.queue w (seeded-Seeded n roots seeds) refl
    where
      choose :
          (queue : List ℕ) (w : Walk)
          → Seeded n roots seeds w
          → w.queue ≡ queue
          → IsStarted (unless_seeded queue (start_at (candidates edges 0 n) w) w)
      choose [] w s e = IsStarted-start_at w (candidates edges 0 n) s e refl
      choose (u ∷ us) w s e = IsStarted-named w u s (rw e (Memᴰ.head refl))

-- A way through the document from a beginning to a package, of so many steps.
abbrev pub Way : ℕ → List ℕ → List ℕ → List Text → List ℕ → List ℕ → ℕ → ℕ → Type 0
Way n sources targets types roots direct_seeds =
    let leads = Depends n sources targets types in
    Distance (Begins n leads roots direct_seeds) leads

-- For any document the walk ends and gives each package the length of a shortest way to it: a depth other
-- than 65535 is the length of some way from a root, from a direct dependency (where the length begins at
-- 1) or, without any of them in range, from the only origin, and no way is shorter than the depth given.
pub compute-shortest :
    (n : ℕ) (sources targets : List ℕ) (types : List Text) (roots direct_seeds : List ℕ)
    → (depths : List ℕ) × (compute n sources targets types roots direct_seeds ≡ some depths)
      × ((i : ℕ)
          → (depth_at depths i ≢ unknown_depth
              → Way n sources targets types roots direct_seeds i (depth_at depths i))
            × ((d : ℕ)
                → Way n sources targets types roots direct_seeds i d
                → depth_at depths i ≤ d))
unfolding compute
compute-shortest n sources targets types roots direct_seeds =
    let edges = walk_edges n sources targets types in
    let leads = Depends n sources targets types in
    let (depths, ends) = compute-total n sources targets types roots direct_seeds in
    (
      depths,
      ends,
      walk-Distance n edges (Begins n leads roots direct_seeds) leads
          (edge n sources targets types roots direct_seeds) (λ i j l. (Depends-Ends l).1)
          (Start-early n sources targets types roots direct_seeds) n
          (start n edges (seeded n roots direct_seeds)) depths
          (IsStarted-start n sources targets types roots direct_seeds) ends,
    )
