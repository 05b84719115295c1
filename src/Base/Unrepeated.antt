-- ===== src/Base/Unrepeated.antt =====
-- Lists without repetition.
use mathlib.Core.List.Memᴰ
use mathlib.Core.List.{Permᴰ}
use mathlib.Core.List.Permᴰ
use bomhort.Base.Rearrange.{Permᴰ-Memᴰ}
use mathlib.Core.Path.{◌≡◌, refl, sym, ap, ◌∙◌}
use mathlib.Core.Logic.{◌≢◌, ◌↔◌, ◌⊎◌, inl, inr}
use mathlib.Core.List.{List, [], ◌∷◌, ◌++◌, map, Memᴰ}
use mathlib.Core.Bool.{Bool, true}
use bomhort.Base.Lists.{keep, keep-take, keep-drop}
use bomhort.Base.Tests.{Bool-cases}

module _ {ℓ} {A : Type ℓ} where
  pub data Distinct : List A → Type ℓ where
    nil : Distinct []
    cons : {x : A} {xs : List A} → ¬ Memᴰ x xs → Distinct xs → Distinct (x ∷ xs)

  pub Distinct-head : {x : A} {xs : List A} → Distinct (x ∷ xs) → ¬ Memᴰ x xs
  Distinct-head (cons fresh rest) = fresh

  pub Distinct-tail : {x : A} {xs : List A} → Distinct (x ∷ xs) → Distinct xs
  Distinct-tail (cons fresh rest) = rest

module _ {ℓ κ} {A : Type ℓ} {B : Type κ} where
  pub Memᴰ-map :
      (f : A → B) (b : B) (xs : List A) → Memᴰ b (map f xs) → (a : A) × Memᴰ a xs × (b ≡ f a)
  Memᴰ-map f b [] m = absurd (Memᴰ.not-nil m)
  Memᴰ-map f b (x ∷ xs) m = elim (Memᴰ.cases_cons m) [
    | inl e ↦ (x, Memᴰ.head refl, e)
    | inr k ↦ let (a, p, e) = Memᴰ-map f b xs k in (a, Memᴰ.tail p, e)
  ]

  pub map-Memᴰ : (f : A → B) (a : A) (xs : List A) → Memᴰ a xs → Memᴰ (f a) (map f xs)
  map-Memᴰ f a [] m = absurd (Memᴰ.not-nil m)
  map-Memᴰ f a (x ∷ xs) m = elim (Memᴰ.cases_cons m) [
    | inl e ↦ Memᴰ.head (ap f e)
    | inr k ↦ Memᴰ.tail (map-Memᴰ f a xs k)
  ]

module _ {ℓ} {A : Type ℓ} where
  pub Memᴰ-keep :
      (p : A → Bool) (a : A) (xs : List A) → Memᴰ a (keep p xs) → Memᴰ a xs × (p a ≡ true)
  Memᴰ-keep p a [] m = absurd (Memᴰ.not-nil m)
  Memᴰ-keep p a (x ∷ xs) m = elim (Bool-cases (p x)) [
    | inl e ↦ elim (Memᴰ.cases_cons (rw (keep-take p x xs e) at m)) [
      | inl same ↦ (Memᴰ.head same, rw same e)
      | inr k ↦ let (q, h) = Memᴰ-keep p a xs k in (Memᴰ.tail q, h)
    ]
    | inr e ↦ let (q, h) = Memᴰ-keep p a xs (rw (keep-drop p x xs e) at m) in (Memᴰ.tail q, h)
  ]

  pub keep-Memᴰ : (p : A → Bool) (a : A) (xs : List A) → Memᴰ a xs → p a ≡ true → Memᴰ a (keep p xs)
  keep-Memᴰ p a [] m h = absurd (Memᴰ.not-nil m)
  keep-Memᴰ p a (x ∷ xs) m h = elim (Memᴰ.cases_cons m) [
    | inl same ↦ rw (keep-take p x xs (rw (sym same) h)) (Memᴰ.head same)
    | inr k ↦ elim (Bool-cases (p x)) [
      | inl e ↦ rw (keep-take p x xs e) (Memᴰ.tail (keep-Memᴰ p a xs k h))
      | inr e ↦ rw (keep-drop p x xs e) (keep-Memᴰ p a xs k h)
    ]
  ]

module _ {ℓ κ} {A : Type ℓ} {B : Type κ} where
  pub Distinct-keep :
      (f : A → B) (p : A → Bool) (xs : List A) → Distinct (map f xs) → Distinct (map f (keep p xs))
  Distinct-keep f p [] d = nil
  Distinct-keep f p (x ∷ xs) d = elim (Bool-cases (p x)) [
    | inl e ↦ rw (keep-take p x xs e) (
        cons
          (λ m.
            let (a, q, same) = Memᴰ-map f (f x) (keep p xs) m in
            Distinct-head d (rw same (map-Memᴰ f a xs (Memᴰ-keep p a xs q).0)))
          (Distinct-keep f p xs (Distinct-tail d)))
    | inr e ↦ rw (keep-drop p x xs e) (Distinct-keep f p xs (Distinct-tail d))
  ]

  -- Of two elements with the same value of `f`, the list holds one.
  pub Distinct-map-inj :
      (f : A → B) (x y : A) (xs : List A)
      → Distinct (map f xs)
      → Memᴰ x xs
      → Memᴰ y xs
      → f x ≡ f y
      → x ≡ y
  Distinct-map-inj f x y [] d m k e = absurd (Memᴰ.not-nil m)
  Distinct-map-inj f x y (z ∷ xs) d m k e = elim (Memᴰ.cases_cons m) [
    | inl p ↦ elim (Memᴰ.cases_cons k) [
      | inl q ↦ p ∙ sym q
      | inr q ↦ absurd (Distinct-head d (rw (sym (ap f p) ∙ e) (map-Memᴰ f y xs q)))
    ]
    | inr p ↦ elim (Memᴰ.cases_cons k) [
      | inl q ↦ absurd (Distinct-head d (rw (sym (ap f q) ∙ sym e) (map-Memᴰ f x xs p)))
      | inr q ↦ Distinct-map-inj f x y xs (Distinct-tail d) p q e
    ]
  ]

module _ {ℓ} {A : Type ℓ} where
  pub Memᴰ-widen : (x y : A) (xs ys : List A) → Memᴰ x (xs ++ ys) → Memᴰ x (xs ++ y ∷ ys)
  Memᴰ-widen x y xs ys m = elim (Memᴰ.append_cases xs m) [
    | inl k ↦ Memᴰ.append_left (y ∷ ys) k
    | inr k ↦ Memᴰ.append_right xs (Memᴰ.tail k)
  ]

module _ {ℓ κ} {A : Type ℓ} {B : Type κ} where
  -- An element taken out of a list without repetition is gone.
  pub Distinct-without :
      (f : A → B) (xs : List A) (y : A) (ys : List A)
      → Distinct (map f (xs ++ y ∷ ys))
      → Distinct (map f (xs ++ ys)) × ((x : A) → Memᴰ x (xs ++ ys) → f x ≢ f y)
  Distinct-without f [] y ys d =
      (Distinct-tail d, λ x m e. Distinct-head d (rw (sym e) (map-Memᴰ f x ys m)))
  Distinct-without f (z ∷ xs) y ys d =
      let (rest, apart) = Distinct-without f xs y ys (Distinct-tail d) in
      (
        cons
            (λ m.
              let (a, q, e) = Memᴰ-map f (f z) (xs ++ ys) m in
              Distinct-head d (rw e (map-Memᴰ f a (xs ++ y ∷ ys) (Memᴰ-widen a y xs ys q))))
            rest,
        λ x m e. elim (Memᴰ.cases_cons m) [
          | inl same ↦ Distinct-head d (
              rw (sym (ap f same) ∙ e)
                (map-Memᴰ f y (xs ++ y ∷ ys) (Memᴰ.append_right xs (Memᴰ.head refl))))
          | inr k ↦ apart x k e
        ],
      )

  pub Distinct-map_append :
      (f : A → B) (xs ys : List A)
      → Distinct (map f xs)
      → Distinct (map f ys)
      → ((x y : A) → Memᴰ x xs → Memᴰ y ys → f x ≢ f y)
      → Distinct (map f (xs ++ ys))
  Distinct-map_append f [] ys d e apart = e
  Distinct-map_append f (x ∷ xs) ys d e apart =
      cons
        (λ m.
          let (a, q, same) = Memᴰ-map f (f x) (xs ++ ys) m in
          elim (Memᴰ.append_cases xs q) [
            | inl k ↦ Distinct-head d (rw same (map-Memᴰ f a xs k))
            | inr k ↦ apart x a (Memᴰ.head refl) k same
          ])
        (Distinct-map_append f xs ys (Distinct-tail d) e (λ y z m. apart y z (Memᴰ.tail m)))

module _ {ℓ} {A : Type ℓ} where
  pub Distinct-snoc : (xs : List A) (y : A) → Distinct xs → ¬ Memᴰ y xs → Distinct (xs ++ y ∷ [])
  Distinct-snoc [] y d h = cons Memᴰ.not-nil nil
  Distinct-snoc (x ∷ xs) y d h =
      cons
        (λ m. elim (Memᴰ.append_cases xs m) [
          | inl k ↦ Distinct-head d k
          | inr k ↦ h (Memᴰ.head (sym (Memᴰ.eq_of_singleton k)))
        ])
        (Distinct-snoc xs y (Distinct-tail d) (λ m. h (Memᴰ.tail m)))

  -- A rearrangement of a list without repetition has none.
  pub Permᴰ-Distinct : {xs ys : List A} → Permᴰ xs ys → Distinct xs → Distinct ys
  Permᴰ-Distinct Permᴰ.nil d = nil
  Permᴰ-Distinct (Permᴰ.cons {b = b} e p) d =
      cons (λ m. Distinct-head d (rw e (Permᴰ-Memᴰ (Permᴰ.symm p) m)))
        (Permᴰ-Distinct p (Distinct-tail d))
  Permᴰ-Distinct (Permᴰ.swap e f) d =
      cons
        (λ m. elim (Memᴰ.cases_cons m) [
          | inl k ↦ Distinct-head d (Memᴰ.head (e ∙ sym k ∙ sym f))
          | inr k ↦ Distinct-head (Distinct-tail d) (rw f k)
        ])
        (cons (λ m. Distinct-head d (Memᴰ.tail (rw e m))) (Distinct-tail (Distinct-tail d)))
  Permᴰ-Distinct (Permᴰ.trans p q) d = Permᴰ-Distinct q (Permᴰ-Distinct p d)

module _ {ℓ} {A : Type ℓ} where
  Memᴰ-split : (x : A) (ys : List A) → Memᴰ x ys → (s : List A) × (t : List A) × (ys ≡ s ++ x ∷ t)
  Memᴰ-split x [] m = absurd (Memᴰ.not-nil m)
  Memᴰ-split x (y ∷ ys) m = elim (Memᴰ.cases_cons m) [
    | inl e ↦ ([], ys, ap (λ z. z ∷ ys) (sym e))
    | inr k ↦ let (s, t, e) = Memᴰ-split x ys k in (y ∷ s, t, ap (λ zs. y ∷ zs) e)
  ]

  Memᴰ-middle : (a x : A) (s t : List A) → Memᴰ a (s ++ x ∷ t) → (a ≡ x) ⊎ Memᴰ a (s ++ t)
  Memᴰ-middle a x s t m = elim (Memᴰ.append_cases s m) [
    | inl k ↦ inr (Memᴰ.append_left t k)
    | inr k ↦ elim (Memᴰ.cases_cons k) [ inl e ↦ inl e | inr q ↦ inr (Memᴰ.append_right s q) ]
  ]

  -- Two lists without repetition that hold the same elements are rearrangements of each other.
  pub Distinct-Permᴰ :
      (xs ys : List A) → Distinct xs → Distinct ys → ((a : A) → Memᴰ a xs ↔ Memᴰ a ys) → Permᴰ xs ys
  Distinct-Permᴰ [] [] d e h = Permᴰ.nil
  Distinct-Permᴰ [] (y ∷ ys) d e h = absurd (Memᴰ.not-nil ((h y).1 (Memᴰ.head refl)))
  Distinct-Permᴰ (x ∷ xs) ys d e h =
      let (s, t, same) = Memᴰ-split x ys ((h x).0 (Memᴰ.head refl)) in
      let lean = Permᴰ-Distinct (Permᴰ.middle x s t) (rw same at e) in
      let rest = Distinct-Permᴰ xs (s ++ t) (Distinct-tail d) (Distinct-tail lean) (λ a. (
        λ m. elim (Memᴰ-middle a x s t (rw same at ((h a).0 (Memᴰ.tail m)))) [
          | inl k ↦ absurd (Distinct-head d (rw k at m))
          | inr k ↦ k
        ],
        λ m. elim (Memᴰ.cases_cons ((h a).1 (rw same (Memᴰ-widen a x s t m)))) [
          | inl k ↦ absurd (Distinct-head lean (rw k at m))
          | inr k ↦ k
        ],
      )) in
      rw same (Permᴰ.trans (Permᴰ.cons refl rest) (Permᴰ.symm (Permᴰ.middle x s t)))

module _ {ℓ} {A : Type ℓ} where
  -- Two parts of a list without repetition have none, and no element in common.
  pub Distinct-left : (xs ys : List A) → Distinct (xs ++ ys) → Distinct xs
  Distinct-left [] ys d = nil
  Distinct-left (x ∷ xs) ys d =
      cons (λ m. Distinct-head d (Memᴰ.append_left ys m)) (Distinct-left xs ys (Distinct-tail d))

  pub Distinct-right : (xs ys : List A) → Distinct (xs ++ ys) → Distinct ys
  Distinct-right [] ys d = d
  Distinct-right (x ∷ xs) ys d = Distinct-right xs ys (Distinct-tail d)

  pub Distinct-apart : (xs ys : List A) → Distinct (xs ++ ys) → (a : A) → Memᴰ a xs → ¬ Memᴰ a ys
  Distinct-apart [] ys d a m k = Memᴰ.not-nil m
  Distinct-apart (x ∷ xs) ys d a m k = elim (Memᴰ.cases_cons m) [
    | inl e ↦ Distinct-head d (Memᴰ.append_right xs (rw e at k))
    | inr q ↦ Distinct-apart xs ys (Distinct-tail d) a q k
  ]
