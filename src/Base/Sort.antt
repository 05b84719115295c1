-- ===== src/Base/Sort.antt =====
-- sort.Strings: strings in the order of their code points, which is that of their UTF-8 bytes.
use mathlib.Core.List.{Perm, Permᴰ}
use mathlib.Core.Path.{◌≡◌, refl, sym, ◌∙◌, subst}
use mathlib.Core.List.Permᴰ
use mathlib.Core.Logic.{∥∥₁_elim}
use mathlib.Core.Logic.{◌↔◌, ◌⊎◌, inl, inr}
use mathlib.Core.Bool.{Bool, true, false, ◌&&◌, ◌||◌}
use mathlib.Core.List.{List, [], ◌∷◌}
use native.Mathlib.Omega.{arith}
use bomhort.Base.Tests.{ltb, eqb, if◌then◌else◌}
use bomhort.Base.Texts.{Text}

-- s ≤ t
unfoldable pub text_le : Text → Text → Bool
text_le [] t = true
text_le (a ∷ s) [] = false
text_le (a ∷ s) (b ∷ t) = ltb a b || (eqb a b && text_le s t)

pub text_le-total : (s t : Text) → (text_le s t ≡ true) ⊎ (text_le t s ≡ true)
unfolding text_le
text_le-total [] t = inl refl
text_le-total (a ∷ s) [] = inr refl
text_le-total (a ∷ s) (b ∷ t) = ground (arith, text_le-total s t)

pub text_le-antisym : (s t : Text) → text_le s t ≡ true → text_le t s ≡ true → s ≡ t
unfolding text_le
text_le-antisym [] [] h k = refl
text_le-antisym [] (b ∷ t) h k = cc
text_le-antisym (a ∷ s) [] h k = cc
text_le-antisym (a ∷ s) (b ∷ t) h k = ground (arith, text_le-antisym s t)

pub text_le_trans : (s t u : Text) → text_le s t ≡ true → text_le t u ≡ true → text_le s u ≡ true
unfolding text_le
text_le_trans [] t u h k = refl
text_le_trans (a ∷ s) [] u h k = cc
text_le_trans (a ∷ s) (b ∷ t) [] h k = cc
text_le_trans (a ∷ s) (b ∷ t) (c ∷ u) h k = ground (arith, text_le_trans s t u)

unfoldable pub insert_sorted : Text → List Text → List Text
insert_sorted s [] = s ∷ []
insert_sorted s (t ∷ ts) = if text_le s t then s ∷ t ∷ ts else t ∷ insert_sorted s ts

unfoldable pub sort : List Text → List Text
unfolding insert_sorted text_le
sort [] = []
sort (s ∷ ss) = insert_sorted s (sort ss)

insert_sorted_comm :
    (x y : Text) (ts : List Text)
    → insert_sorted x (insert_sorted y ts) ≡ insert_sorted y (insert_sorted x ts)
unfolding insert_sorted
insert_sorted_comm x y [] = ground (arith, text_le-total x y, text_le-antisym x y)
insert_sorted_comm x y (t ∷ ts) = ground (
  arith,
  insert_sorted_comm x y ts,
  text_le-total x y,
  text_le-antisym x y,
  text_le-total x t,
  text_le-total y t,
  text_le_trans x y t,
  text_le_trans y x t,
)

sort-Permᴰ : {xs ys : List Text} → Permᴰ xs ys → sort xs ≡ sort ys
unfolding sort
sort-Permᴰ Permᴰ.nil = refl
sort-Permᴰ (Permᴰ.cons {a} {b} {l₁} {l₂} e p) = cc (e, sort-Permᴰ p)
sort-Permᴰ (Permᴰ.swap {a} {b} {a'} {b'} {l} e f) = rw (e, f) (insert_sorted_comm b' a' (sort l))
sort-Permᴰ (Permᴰ.trans p q) = sort-Permᴰ p ∙ sort-Permᴰ q

insert_sorted-perm : (s : Text) (ts : List Text) → Permᴰ (insert_sorted s ts) (s ∷ ts)
unfolding insert_sorted
insert_sorted-perm s [] = Permᴰ.refl (s ∷ [])
insert_sorted-perm s (t ∷ ts) = pick (insert_sorted-perm s ts) (text_le s t)
  where
    pick :
        Permᴰ (insert_sorted s ts) (s ∷ ts)
        → (b : Bool) → Permᴰ (if b then s ∷ t ∷ ts else t ∷ insert_sorted s ts) (s ∷ t ∷ ts)
    pick rest true = Permᴰ.refl (s ∷ t ∷ ts)
    pick rest false = Permᴰ.trans (Permᴰ.cons refl rest) (Permᴰ.swap refl refl)

pub sort-perm : (xs : List Text) → Permᴰ (sort xs) xs
unfolding sort
sort-perm [] = Permᴰ.nil
sort-perm (s ∷ ss) = Permᴰ.trans (insert_sorted-perm s (sort ss)) (Permᴰ.cons refl (sort-perm ss))

List-Text-set : IsSet (List Text)
List-Text-set = hlevel

-- Two lists sort alike exactly if one is a rearrangement of the other.
pub sort_iff : (xs ys : List Text) → (sort xs ≡ sort ys) ↔ Perm xs ys
sort_iff xs ys = (
  λ e.
      ∣ Permᴰ.trans (Permᴰ.symm (sort-perm xs))
        (subst (λ zs. Permᴰ zs ys) (sym e) (sort-perm ys)) ∣₁,
  λ p. ∥∥₁_elim p (List-Text-set (sort xs) (sort ys)) sort-Permᴰ,
)
