-- ===== src/Depgraph/Invariant.antt =====
-- The invariant of the walk of backend/internal/depgraph/depth.go.
use mathlib.Core.List.Memᴰ
use bomhort.Base.{
  zero, ltb→ge, ltb→lt, ltb, true, sym, Bool-cases, ◌∙◌, ◌∙◌, ℕ, suc, ◌<◌, ◌≤◌, ◌+◌, ◌%◌, ◌^◌, some,
  List, [], ◌∷◌, Memᴰ, Memᴰ-append, length, eqb, ◌≡◌, ◌≢◌, ◌⊎◌, ◌↔◌, inl, inr, refl, arith,
}
use bomhort.Depgraph.{unknown_depth, depth_at, Walk, discover_all, Edges, children, expand, walk}
use bomhort.Depgraph.Distance.{Distance, onward, begin, Memᴰ-children}
use bomhort.Depgraph.Level.{
  Grows, still_unmet, as_before, just_met, Sorted, Sorted-append, Sorted-agree, change,
  discover_all-Grows, discover_all-met,
}

module _ (n : ℕ) (edges : Edges) (Start Leads : ℕ → ℕ → Type 0)
    (edge : (i j : ℕ) → Memᴰ (i, j) edges ↔ Leads i j) (ends : (i j : ℕ) → Leads i j → j < n)
    (early : (i d : ℕ) → Start i d → d < unknown_depth) where
  pub record Inv (w : Walk) : Type 0 where
    pub sized : length w.depths ≡ n
    pub bounded : (i : ℕ) → depth_at w.depths i ≤ unknown_depth
    pub queued : (i : ℕ) → Memᴰ i w.queue → depth_at w.depths i ≢ unknown_depth
    pub sound :
        (i : ℕ) → depth_at w.depths i ≢ unknown_depth → Distance Start Leads i (depth_at w.depths i)
    pub sorted : Sorted (depth_at w.depths) w.queue
    pub ahead :
        (i u : ℕ)
        → depth_at w.depths i ≢ unknown_depth
        → Memᴰ u w.queue
        → depth_at w.depths i ≤ depth_at w.depths u + 1
    pub closed :
        (u v : ℕ)
        → Leads u v
        → depth_at w.depths u + 1 < unknown_depth
        → Memᴰ u w.queue ⊎ (depth_at w.depths v ≤ depth_at w.depths u + 1)
    pub started : (i d : ℕ) → Start i d → depth_at w.depths i ≤ d

  Sorted-rest : {f : ℕ → ℕ} {x : ℕ} {xs : List ℕ} → Sorted f (x ∷ xs) → Sorted f xs
  Sorted-rest (Sorted.cons least s) = s

  Sorted-least :
      {f : ℕ → ℕ} {x : ℕ} {xs : List ℕ} → Sorted f (x ∷ xs) → (y : ℕ) → Memᴰ y xs → f x ≤ f y
  Sorted-least (Sorted.cons least s) = least

  -- One round that meets new packages.
  Inv-grown :
      (depths : List ℕ) (cur : ℕ) (rest : List ℕ) (w' : Walk)
      → Inv (record { depths = depths; queue = cur ∷ rest })
      → depth_at depths cur + 1 < unknown_depth
      → Grows (depth_at depths cur + 1) (Leads cur) (record { depths = depths; queue = rest }) w'
      → ((i : ℕ) → Leads cur i → depth_at w'.depths i ≢ unknown_depth)
      → Inv w'
  Inv-grown depths cur rest w' inv near g met =
      let w : Walk = record { depths = depths; queue = rest } in
      let next = depth_at depths cur + 1 in
      let seen = λ (i : ℕ). change next (Leads cur) w w' g i in
      let known_cur = inv.queued cur (Memᴰ.head refl) in
      let of_rest = λ (i : ℕ) (m : Memᴰ i rest). g.kept i (inv.queued i (Memᴰ.tail m)) in
      record {
        sized = g.as_long ∙ inv.sized;
        bounded = λ i. elim (seen i) [
          | still_unmet e x ↦ omega arith
          | as_before e x ↦ omega (arith, inv.bounded i)
          | just_met e x t m ↦ omega arith
        ];
        queued = λ i m. elim ((Memᴰ-append i rest g.added).0 (rw g.behind at m)) [
          | inl k ↦ let same = of_rest i k in let known = inv.queued i (Memᴰ.tail k) in omega arith
          | inr k ↦ omega (arith, g.at_depth i k)
        ];
        sound = λ i h. elim (seen i) [
          | still_unmet e x ↦ absurd (h x)
          | as_before e x ↦ rw x (inv.sound i e)
          | just_met e x t m ↦
              let up : depth_at w'.depths i ≡ suc (depth_at depths cur) = omega arith in
              rw up (onward (inv.sound cur known_cur) t)
        ];
        sorted = rw g.behind (
            Sorted-append (depth_at w'.depths) next rest g.added
              (λ i m.
                omega (
                  arith,
                  of_rest i m,
                  inv.ahead i cur (inv.queued i (Memᴰ.tail m)) (Memᴰ.head refl),
                ))
              g.at_depth
              (Sorted-agree (depth_at depths) (depth_at w'.depths) rest of_rest
                (Sorted-rest inv.sorted)));
        ahead = λ i u h m. elim (seen i) [
          | still_unmet e x ↦ absurd (h x)
          | as_before e x ↦ omega (arith, inv.ahead i cur e (Memᴰ.head refl), no_less u m)
          | just_met e x t k ↦ omega (arith, no_less u m)
        ];
        closed = λ u v l small. elim (seen u) [
          | still_unmet e x ↦ absurd (omega arith)
          | as_before e x ↦ elim (inv.closed u v l (omega arith)) [
            | inl m ↦ elim (Memᴰ.cases_cons m) [
              | inl same ↦ inr (rw same (reached v (rw same at l)))
              | inr k ↦ inl (rw g.behind ((Memᴰ-append u rest g.added).1 (inl k)))
            ]
            | inr k ↦ inr (omega (arith, g.kept v (omega arith)))
          ]
          | just_met e x t m ↦ inl m
        ];
        started = λ i d s.
            let h = inv.started i d s in let l = early i d s in let k = g.kept i in omega arith;
      }
    where
      no_less : (u : ℕ) → Memᴰ u w'.queue → depth_at depths cur ≤ depth_at w'.depths u
      no_less u m = elim ((Memᴰ-append u rest g.added).0 (rw g.behind at m)) [
        | inl k ↦ omega (arith, Sorted-least inv.sorted u k, g.kept u (inv.queued u (Memᴰ.tail k)))
        | inr k ↦ omega (arith, g.at_depth u k)
      ]

      reached : (v : ℕ) → Leads cur v → depth_at w'.depths v ≤ depth_at w'.depths cur + 1
      reached v l =
          elim (change (depth_at depths cur + 1) (Leads cur)
            (record { depths = depths; queue = rest }) w' g v) [
              | still_unmet e x ↦ absurd (met v l x)
              | as_before e x ↦ omega (
                arith,
                inv.ahead v cur e (Memᴰ.head refl),
                g.kept cur (inv.queued cur (Memᴰ.head refl)),
              )
              | just_met e x t m ↦ omega (arith, g.kept cur (inv.queued cur (Memᴰ.head refl)))
            ]

  Inv-expand :
      (depths : List ℕ) (cur : ℕ) (rest : List ℕ)
      → Inv (record { depths = depths; queue = cur ∷ rest })
      → Inv (expand edges cur (record { depths = depths; queue = rest }))
  unfolding expand
  Inv-expand depths cur rest inv =
      let known = inv.queued cur (Memᴰ.head refl) in
      let bound = inv.bounded cur in
      let w : Walk = record { depths = depths; queue = rest } in
      let plain : (depth_at depths cur + 1) % 2 ^ 16 ≡ depth_at depths cur + 1 = omega arith in
      elim (Bool-cases (eqb (depth_at depths cur + 1) unknown_depth)) [
        | inl e ↦
            rw (plain, e)
              (record {
                sized = inv.sized;
                bounded = inv.bounded;
                queued = λ i m. inv.queued i (Memᴰ.tail m);
                sound = inv.sound;
                sorted = Sorted-rest inv.sorted;
                ahead = λ i u h m. inv.ahead i u h (Memᴰ.tail m);
                closed = λ u v l small. elim (inv.closed u v l small) [
                  | inl m ↦ elim (Memᴰ.cases_cons m) [
                    | inl same ↦ absurd (at_limit u same e small)
                    | inr k ↦ inl k
                  ]
                  | inr k ↦ inr k
                ];
                started = inv.started;
              })
        | inr e ↦
            let low : depth_at depths cur + 1 < unknown_depth = ground arith in
            let below : depth_at depths cur + 1 ≢ unknown_depth = omega arith in
            rw (plain, e)
              (Inv-grown depths cur rest
                (discover_all (depth_at depths cur + 1) (children edges cur) w) inv low
                (discover_all-Grows (depth_at depths cur + 1) (children edges cur) (Leads cur) w
                  below (λ i m. (edge cur i).0 ((Memᴰ-children edges cur i).0 m)))
                (λ i l.
                  discover_all-met (depth_at depths cur + 1) (children edges cur) w i below
                    ((Memᴰ-children edges cur i).1 ((edge cur i).1 l))
                    (omega (arith, inv.sized, ends cur i l))))
      ]
    where
      at_limit :
          (u : ℕ)
          → u ≡ cur
          → eqb (depth_at depths cur + 1) unknown_depth ≡ true
          → ¬ (depth_at depths u + 1 < unknown_depth)
      at_limit u same e = rw same (ground arith)

  Inv-walk :
      (f : ℕ) (depths queue result : List ℕ)
      → Inv (record { depths = depths; queue = queue })
      → walk f edges depths queue ≡ some result
      → Inv (record { depths = result; queue = [] })
  unfolding walk
  Inv-walk f depths [] result inv h = let same : depths ≡ result = cc in rw (sym same) inv
  Inv-walk zero depths (cur ∷ rest) result inv h = cc
  Inv-walk (suc f) depths (cur ∷ rest) result inv h =
      let w = expand edges cur (record { depths = depths; queue = rest }) in
      Inv-walk f w.depths w.queue result (Inv-expand depths cur rest inv) h

  Inv-least :
      (result : List ℕ)
      → Inv (record { depths = result; queue = [] })
      → (i d : ℕ) → Distance Start Leads i d
      → depth_at result i ≤ d
  Inv-least result inv i d (begin s) = inv.started i d s
  Inv-least result inv j (suc d) (onward {i = i} p l) =
      let least = Inv-least result inv i d p in
      elim (Bool-cases (ltb (depth_at result i + 1) unknown_depth)) [
        | inl e ↦ elim (inv.closed i j l (ltb→lt (depth_at result i + 1) unknown_depth e)) [
          | inl m ↦ absurd (Memᴰ.not-nil m)
          | inr k ↦ omega arith
        ]
        | inr e ↦ omega (arith, inv.bounded j, ltb→ge (depth_at result i + 1) unknown_depth e)
      ]

  -- When the walk ends, each depth is the length of a shortest way, as far as there is one below the mark
  -- of an unknown depth.
  pub walk-Distance :
      (f : ℕ) (w : Walk) (result : List ℕ)
      → Inv w
      → walk f edges w.depths w.queue ≡ some result
      → (i : ℕ)
      → (depth_at result i ≢ unknown_depth → Distance Start Leads i (depth_at result i))
        × ((d : ℕ) → Distance Start Leads i d → depth_at result i ≤ d)
  walk-Distance f w result inv h i =
      let last = Inv-walk f w.depths w.queue result inv h in (last.sound i, Inv-least result last i)
