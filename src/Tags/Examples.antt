-- ===== src/Tags/Examples.antt =====
-- Concrete tags (backend/internal/tags/tags.go).
use bomhort.Base.{
  arith, inr, inl, ◌+◌, trim_space, ℕ, zero, suc, Text, codes, List, [], ◌∷◌, contains, true, false,
  Memᴰ, ◌≡◌, ◌↔◌, refl, to_lower, reverse,
}
use mathlib.Core.List.Memᴰ
use bomhort.Tags.{Strings, normalize, parse}
use bomhort.Tags.Bounds.{Limits, normalize-Limits}
use bomhort.Tags.Order.{normalize-same_tags}

-- Both functions on ASCII.
abbrev ascii : Strings
ascii = record { trim_space = trim_space; to_lower = to_lower }

normalized : parse ascii (codes "cncf, Sandbox ,,sandbox") ≡ codes "cncf" ∷ codes "sandbox" ∷ []
unfolding parse trim_space normalize bomhort.Base.sort bomhort.Tags.collect bomhort.Base.split_on
    bomhort.Base.extend_first bomhort.Tags.clean_tag to_lower contains bomhort.Base.◌==◌
normalized = refl

normalize-Limits_example : Limits (normalize ascii (codes "b" ∷ codes "a" ∷ codes "B" ∷ []))
normalize-Limits_example = normalize-Limits ascii (codes "b" ∷ codes "a" ∷ codes "B" ∷ [])

normalize-same_tags_example :
    normalize ascii (codes "b" ∷ codes "a" ∷ []) ≡ normalize ascii (codes "a" ∷ codes "b" ∷ [])
normalize-same_tags_example =
    normalize-same_tags ascii (codes "b" ∷ codes "a" ∷ []) (codes "a" ∷ codes "b" ∷ [])
      (omega arith) (omega arith)
      (λ t. (swap (codes "b") (codes "a") t, swap (codes "a") (codes "b") t))
  where
    swap : (x y t : Text) → Memᴰ t (x ∷ y ∷ []) → Memᴰ t (y ∷ x ∷ [])
    swap x y t m = elim (Memᴰ.cases_cons m) [
      | inl e ↦ Memᴰ.tail (Memᴰ.head e)
      | inr k ↦ Memᴰ.head (Memᴰ.eq_of_singleton k)
    ]

abbrev numbered : ℕ → List Text
numbered zero = []
numbered (suc n) = ((100 + n) ∷ []) ∷ numbered n

-- Of more than 32 tags the first 32 are kept, so their order counts.
last_dropped : contains (normalize ascii (numbered 33)) (100 ∷ []) ≡ false
unfolding contains normalize bomhort.Base.sort bomhort.Tags.collect bomhort.Tags.clean_tag to_lower
    trim_space bomhort.Base.◌==◌
last_dropped = refl

last_kept : contains (normalize ascii (reverse (numbered 33))) (100 ∷ []) ≡ true
unfolding contains normalize bomhort.Base.sort bomhort.Tags.collect bomhort.Tags.clean_tag to_lower
    trim_space bomhort.Base.◌==◌
last_kept = refl
