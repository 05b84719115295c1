-- ===== src/Tags/Order.antt =====
-- `Normalize` and the order of the tags (backend/internal/tags/tags.go).
use mathlib.Core.List.Memᴰ
use bomhort.Base.{
  ap, ◌∙◌, ◌∙◌, ℕ, zero, suc, ◌≤◌, Text, true, false, ◌||◌, List, [], ◌∷◌, ◌++◌, is_empty, contains,
  contains_iff, length, sort_iff, Distinct-Permᴰ, Memᴰ, ◌≡◌, ◌↔◌, ◌⊎◌, inl, inr, refl, arith,
  Bool-cases,
}
use bomhort.Tags.{Strings, max_count, clean_tag, collect, normalize}
use bomhort.Tags.Bounds.{collect_all-Limits}

-- The text is what one of the tags becomes, and not empty.
abbrev Comes : Strings → List Text → Text → Type 0
Comes lib raw t = (r : Text) × Memᴰ r raw × (t ≡ clean_tag lib r) × (is_empty t ≡ false)

collect-Memᴰ :
    (lib : Strings) (n : ℕ) (raw out : List Text) (t : Text)
    → length raw ≤ n
    → Memᴰ t (collect lib n raw out) ↔ (Memᴰ t out ⊎ Comes lib raw t)
unfolding collect
collect-Memᴰ lib zero [] out t h =
    (inl, λ m. elim m [ inl k ↦ k | inr (r, k, s, p) ↦ absurd (Memᴰ.not-nil k) ])
collect-Memᴰ lib zero (r ∷ raw) out t h = absurd (omega arith)
collect-Memᴰ lib (suc n) [] out t h =
    (inl, λ m. elim m [ inl k ↦ k | inr (r, k, s, p) ↦ absurd (Memᴰ.not-nil k) ])
collect-Memᴰ lib (suc n) (r ∷ raw) out t h =
    let c = clean_tag lib r in
    elim (Bool-cases (is_empty c || contains out c)) [
      | inl e ↦
          let rest = collect-Memᴰ lib (suc n) raw out t (omega arith) in
          rw e (
            λ m. elim (rest.0 m) [ inl k ↦ inl k | inr (q, k, s, p) ↦ inr (q, Memᴰ.tail k, s, p) ],
            λ m. rest.1 (skipped e m),
          )
      | inr e ↦
          let rest = collect-Memᴰ lib n raw (out ++ c ∷ []) t (omega arith) in
          rw e (
            λ m. elim (rest.0 m) [
              | inl k ↦ elim (Memᴰ.append_cases out k) [
                | inl q ↦ inl q
                | inr q ↦
                    let s = Memᴰ.eq_of_singleton q in
                    inr (r, Memᴰ.head refl, s, rw s (ground arith))
              ]
              | inr (q, k, s, p) ↦ inr (q, Memᴰ.tail k, s, p)
            ],
            λ m. rest.1 (added m),
          )
    ]
  where
    skipped :
        (is_empty (clean_tag lib r) || contains out (clean_tag lib r)) ≡ true
        → Memᴰ t out ⊎ Comes lib (r ∷ raw) t
        → Memᴰ t out ⊎ Comes lib raw t
    skipped e (inl k) = inl k
    skipped e (inr (q, k, s, p)) = elim (Memᴰ.cases_cons k) [
      | inl same ↦
          let now : t ≡ clean_tag lib r = s ∙ ap (clean_tag lib) same in
          inl (
            rw now (
              (contains_iff out (clean_tag lib r)).0
                (let full : is_empty (clean_tag lib r) ≡ false = rw now at p in ground arith)))
      | inr k ↦ inr (q, k, s, p)
    ]

    added :
        Memᴰ t out ⊎ Comes lib (r ∷ raw) t → Memᴰ t (out ++ clean_tag lib r ∷ []) ⊎ Comes lib raw t
    added (inl k) = inl (Memᴰ.append_left (clean_tag lib r ∷ []) k)
    added (inr (q, k, s, p)) = elim (Memᴰ.cases_cons k) [
      | inl same ↦ inl (Memᴰ.append_right out (Memᴰ.head (s ∙ ap (clean_tag lib) same)))
      | inr k ↦ inr (q, k, s, p)
    ]

normalize-Memᴰ :
    (lib : Strings) (xs ys : List Text)
    → length xs ≤ max_count
    → length ys ≤ max_count
    → ((t : Text) → Memᴰ t xs → Memᴰ t ys)
    → (t : Text) → Memᴰ t (collect lib max_count xs [])
    → Memᴰ t (collect lib max_count ys [])
normalize-Memᴰ lib xs ys h k into t m = elim ((collect-Memᴰ lib max_count xs [] t h).0 m) [
  | inl q ↦ absurd (Memᴰ.not-nil q)
  | inr (r, q, s, p) ↦ (collect-Memᴰ lib max_count ys [] t k).1 (inr (r, into r q, s, p))
]

-- Two lists of at most 32 tags that hold the same tags, in any order and any number of times, are normalised to the
-- same list.
pub normalize-same_tags :
    (lib : Strings) (xs ys : List Text)
    → length xs ≤ max_count
    → length ys ≤ max_count
    → ((t : Text) → Memᴰ t xs ↔ Memᴰ t ys)
    → normalize lib xs ≡ normalize lib ys
unfolding normalize
normalize-same_tags lib xs ys h k same =
    (sort_iff (collect lib max_count xs []) (collect lib max_count ys [])).1
      ∣ Distinct-Permᴰ (collect lib max_count xs []) (collect lib max_count ys [])
        (collect_all-Limits lib xs).distinct (collect_all-Limits lib ys).distinct
        (λ t. (
          normalize-Memᴰ lib xs ys h k (λ r. (same r).0) t,
          normalize-Memᴰ lib ys xs k h (λ r. (same r).1) t,
        )) ∣₁
