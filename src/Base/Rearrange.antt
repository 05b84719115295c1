-- ===== src/Base/Rearrange.antt =====
-- Lists up to the order of their elements: their length, and the elements that pass a test.
use mathlib.Core.List.{Perm-prop, Perm, Permᴰ}
use mathlib.Core.List.Perm
use mathlib.Core.List.Permᴰ
use mathlib.Core.Logic.{∥∥₁_elim, inl, inr}
use mathlib.Core.Bool.{Bool, not}
use mathlib.Core.Path.{◌≡◌, refl, ap, ◌∙◌}
use mathlib.Core.List.Memᴰ
use mathlib.Core.List.{Memᴰ, List, [], ◌∷◌, ◌++◌}
use Prim.Native.Nat.{suc}
use bomhort.Base.Tests.{Bool-cases}
use bomhort.Base.Lists.{keep, keep-take, keep-drop, length}

module _ {ℓ} {A : Type ℓ} where
  pub Permᴰ-length : {xs ys : List A} → Permᴰ xs ys → length xs ≡ length ys
  Permᴰ-length Permᴰ.nil = refl
  Permᴰ-length (Permᴰ.cons e p) = ap suc (Permᴰ-length p)
  Permᴰ-length (Permᴰ.swap e f) = refl
  Permᴰ-length (Permᴰ.trans p q) = Permᴰ-length p ∙ Permᴰ-length q

  pub Perm-length : {xs ys : List A} → Perm xs ys → length xs ≡ length ys
  Perm-length {xs} {ys} p =
      let set : IsProp (length xs ≡ length ys) = hlevel in ∥∥₁_elim p set Permᴰ-length

  -- The elements that pass a test and those that fail it, in any order.
  pub keep_split :
      (p q : A → Bool)
      → ((x : A) → p x ≡ not (q x))
      → (xs : List A) → Perm (keep p xs ++ keep q xs) xs
  keep_split p q h [] = Perm.nil
  keep_split p q h (x ∷ xs) = elim (Bool-cases (q x)) [
    | inl e ↦
        rw (keep-drop p x xs (h x ∙ ap not e), keep-take q x xs e)
          (Perm.trans ∣ Permᴰ.middle x (keep p xs) (keep q xs) ∣₁
            (Perm.cons x (keep_split p q h xs)))
    | inr e ↦
        rw (keep-take p x xs (h x ∙ ap not e), keep-drop q x xs e)
          (Perm.cons x (keep_split p q h xs))
  ]

  keep-Permᴰ : (p : A → Bool) {xs ys : List A} → Permᴰ xs ys → Permᴰ (keep p xs) (keep p ys)
  keep-Permᴰ p Permᴰ.nil = Permᴰ.nil
  keep-Permᴰ p (Permᴰ.cons {a} {b} {l₁} {l₂} e r) = elim (Bool-cases (p b)) [
    | inl k ↦ rw (e, keep-take p b l₁ k, keep-take p b l₂ k) (Permᴰ.cons refl (keep-Permᴰ p r))
    | inr k ↦ rw (e, keep-drop p b l₁ k, keep-drop p b l₂ k) (keep-Permᴰ p r)
  ]
  keep-Permᴰ p (Permᴰ.swap {a} {b} {a'} {b'} {l} e f) =
      rw (e, f)
        (elim (Bool-cases (p b')) [
          | inl k ↦ elim (Bool-cases (p a')) [
            | inl m ↦
                rw
                  (
                    keep-take p b' (a' ∷ l) k,
                    keep-take p a' (b' ∷ l) m,
                    keep-take p b' l k,
                    keep-take p a' l m,
                  )
                  (Permᴰ.swap refl refl)
            | inr m ↦
                rw
                  (
                    keep-take p b' (a' ∷ l) k,
                    keep-drop p a' (b' ∷ l) m,
                    keep-take p b' l k,
                    keep-drop p a' l m,
                  )
                  (Permᴰ.refl (b' ∷ keep p l))
          ]
          | inr k ↦ elim (Bool-cases (p a')) [
            | inl m ↦
                rw
                  (
                    keep-drop p b' (a' ∷ l) k,
                    keep-take p a' (b' ∷ l) m,
                    keep-drop p b' l k,
                    keep-take p a' l m,
                  )
                  (Permᴰ.refl (a' ∷ keep p l))
            | inr m ↦
                rw
                  (
                    keep-drop p b' (a' ∷ l) k,
                    keep-drop p a' (b' ∷ l) m,
                    keep-drop p b' l k,
                    keep-drop p a' l m,
                  )
                  (Permᴰ.refl (keep p l))
          ]
        ])
  keep-Permᴰ p (Permᴰ.trans r s) = Permᴰ.trans (keep-Permᴰ p r) (keep-Permᴰ p s)

  pub keep-Perm : (p : A → Bool) {xs ys : List A} → Perm xs ys → Perm (keep p xs) (keep p ys)
  keep-Perm p r = ∥∥₁_elim r Perm-prop (λ d. ∣ keep-Permᴰ p d ∣₁)

module _ {ℓ} {A : Type ℓ} where
  pub Permᴰ-Memᴰ : {x : A} {xs ys : List A} → Permᴰ xs ys → Memᴰ x xs → Memᴰ x ys
  Permᴰ-Memᴰ Permᴰ.nil m = m
  Permᴰ-Memᴰ (Permᴰ.cons e p) m = elim (Memᴰ.cases_cons m) [
    | inl k ↦ Memᴰ.head (k ∙ e)
    | inr k ↦ Memᴰ.tail (Permᴰ-Memᴰ p k)
  ]
  Permᴰ-Memᴰ (Permᴰ.swap e f) m = elim (Memᴰ.cases_cons m) [
    | inl k ↦ Memᴰ.tail (Memᴰ.head (k ∙ e))
    | inr k ↦ elim (Memᴰ.cases_cons k) [
      | inl q ↦ Memᴰ.head (q ∙ f)
      | inr q ↦ Memᴰ.tail (Memᴰ.tail q)
    ]
  ]
  Permᴰ-Memᴰ (Permᴰ.trans p q) m = Permᴰ-Memᴰ q (Permᴰ-Memᴰ p m)
