-- ===== src/Depgraph/Seeding.antt =====
-- The walk of backend/internal/depgraph/depth.go before its first round.
use mathlib.Core.List.Memᴰ
use bomhort.Base.{
  Memᴰ-append, ◌∙◌, ◌∙◌, ap, ◌≢◌, ◌≢◌, length, zero, ℕ, suc, ◌<◌, ◌≤◌, List, [], ◌∷◌, Memᴰ, ◌≡◌,
  ◌↔◌, inl, inr, refl, arith,
}
use bomhort.Depgraph.{Edges, Walk, depth_at, unknown_depth, all_unknown, discover_all}
use bomhort.Depgraph.Distance.{begin}
use bomhort.Depgraph.Level.{
  Sorted-agree, Sorted-append, just_met, as_before, still_unmet, discover_all-met,
  discover_all-Grows, change, Sorted, Grows,
}
use bomhort.Depgraph.Invariant.{Inv}

-- Every package met so far waits in the queue, at a depth of at most `k`.
pub record Ready (n k : ℕ) (From : ℕ → ℕ → Type 0) (w : Walk) : Type 0 where
  pub sized : length w.depths ≡ n
  pub bounded : (i : ℕ) → depth_at w.depths i ≤ unknown_depth
  pub waiting : (i : ℕ) → depth_at w.depths i ≢ unknown_depth → Memᴰ i w.queue
  pub queued : (i : ℕ) → Memᴰ i w.queue → depth_at w.depths i ≢ unknown_depth
  pub from : (i : ℕ) → depth_at w.depths i ≢ unknown_depth → From i (depth_at w.depths i)
  pub sorted : Sorted (depth_at w.depths) w.queue
  pub capped : (i : ℕ) → depth_at w.depths i ≢ unknown_depth → depth_at w.depths i ≤ k

depth_at-all_unknown : (n i : ℕ) → depth_at (all_unknown n) i ≡ unknown_depth
unfolding all_unknown
depth_at-all_unknown zero i = refl
depth_at-all_unknown (suc n) zero = refl
depth_at-all_unknown (suc n) (suc i) = depth_at-all_unknown n i

length-all_unknown : (n : ℕ) → length (all_unknown n) ≡ n
unfolding all_unknown
length-all_unknown zero = refl
length-all_unknown (suc n) = ap suc (length-all_unknown n)

pub known-lt : (depths : List ℕ) (i : ℕ) → depth_at depths i ≢ unknown_depth → i < length depths
known-lt [] i h = absurd (h refl)
known-lt (d ∷ depths) zero h = omega arith
known-lt (d ∷ depths) (suc i) h = omega (arith, known-lt depths i h)

pub Ready-blank :
    (n : ℕ) (From : ℕ → ℕ → Type 0) → Ready n 0 From (record { depths = all_unknown n; queue = [] })
Ready-blank n From = record {
  sized = length-all_unknown n;
  bounded = λ i. omega (arith, depth_at-all_unknown n i);
  waiting = λ i h. absurd (h (depth_at-all_unknown n i));
  queued = λ i m. absurd (Memᴰ.not-nil m);
  from = λ i h. absurd (h (depth_at-all_unknown n i));
  sorted = Sorted.nil;
  capped = λ i h. absurd (h (depth_at-all_unknown n i));
}

pub Ready-grown :
    (n k d : ℕ) (From : ℕ → ℕ → Type 0) (w w' : Walk)
    → Ready n k From w
    → k ≤ d
    → d < unknown_depth
    → Grows d (λ i. From i d) w w'
    → Ready n d From w'
Ready-grown n k d From w w' r le lt g =
    let seen = λ (i : ℕ). change d (λ j. From j d) w w' g i in
    record {
      sized = g.as_long ∙ r.sized;
      bounded = λ i. elim (seen i) [
        | still_unmet e x ↦ omega arith
        | as_before e x ↦ omega (arith, r.bounded i)
        | just_met e x t m ↦ omega arith
      ];
      waiting = λ i h. elim (seen i) [
        | still_unmet e x ↦ absurd (h x)
        | as_before e x ↦ rw g.behind ((Memᴰ-append i w.queue g.added).1 (inl (r.waiting i e)))
        | just_met e x t m ↦ m
      ];
      queued = λ i m. elim ((Memᴰ-append i w.queue g.added).0 (rw g.behind at m)) [
        | inl q ↦ let known = r.queued i q in let same = g.kept i known in omega arith
        | inr q ↦ omega (arith, g.at_depth i q)
      ];
      from = λ i h. elim (seen i) [
        | still_unmet e x ↦ absurd (h x)
        | as_before e x ↦ rw x (r.from i e)
        | just_met e x t m ↦ rw x t
      ];
      sorted = rw g.behind (
          Sorted-append (depth_at w'.depths) d w.queue g.added
            (λ i m. let known = r.queued i m in omega (arith, g.kept i known, r.capped i known))
            g.at_depth
            (Sorted-agree (depth_at w.depths) (depth_at w'.depths) w.queue
              (λ i m. g.kept i (r.queued i m)) r.sorted));
      capped = λ i h. elim (seen i) [
        | still_unmet e x ↦ absurd (h x)
        | as_before e x ↦ omega (arith, r.capped i e)
        | just_met e x t m ↦ omega arith
      ];
    }

-- The targets in range are met.
pub Ready-discover_all :
    (n k d : ℕ) (From : ℕ → ℕ → Type 0) (w : Walk) (is : List ℕ)
    → Ready n k From w
    → k ≤ d
    → d < unknown_depth
    → ((i : ℕ) → Memᴰ i is → From i d)
    → Ready n d From (discover_all d is w)
      × ((i : ℕ) → i < n → Memᴰ i is → depth_at (discover_all d is w).depths i ≢ unknown_depth)
Ready-discover_all n k d From w is r le lt t =
    let other : d ≢ unknown_depth = omega arith in
    (
      Ready-grown n k d From w (discover_all d is w) r le lt
          (discover_all-Grows d is (λ i. From i d) w other t),
      λ i below m. discover_all-met d is w i other m (omega (arith, r.sized)),
    )

pub Ready-Inv :
    (n k : ℕ) (edges : Edges) (Start Leads : ℕ → ℕ → Type 0)
    (edge : (i j : ℕ) → Memᴰ (i, j) edges ↔ Leads i j) (ends : (i j : ℕ) → Leads i j → j < n)
    (early : (i d : ℕ) → Start i d → d < unknown_depth) (From : ℕ → ℕ → Type 0) (w : Walk)
    → Ready n k From w
    → k ≤ 1
    → ((i d : ℕ) → i < n → From i d → Start i d)
    → ((i d : ℕ) → Start i d → depth_at w.depths i ≤ d)
    → Inv n edges Start Leads edge ends early w
Ready-Inv n k edges Start Leads edge ends early From w r one legal started = record {
  sized = r.sized;
  bounded = r.bounded;
  queued = r.queued;
  sound = λ i h.
      begin (
        legal i (depth_at w.depths i) (omega (arith, known-lt w.depths i h, r.sized)) (r.from i h));
  sorted = r.sorted;
  ahead = λ i u h m. omega (arith, r.capped i h);
  closed = λ u v l small. inl (r.waiting u (omega arith));
  started = started;
}
