-- ===== src/Base/Texts.antt =====
-- Go's strings as lists of code points, and what the program uses of package strings.
-- The case mappings are those of Unicode for every rune whose image is in ASCII; a rune outside
-- ASCII with an image outside ASCII stays, since the code that is modelled with these mappings
-- compares their results with ASCII constants only.
use Prim.Native.Char.{code}
use Prim.Native.String.{String}
use Prim.Native.Nat.{ℕ, ◌+◌, ◌-◌}
use mathlib.Core.Path.{◌≡◌, refl, sym}
use mathlib.Core.Logic.{◌↔◌}
use mathlib.Core.Bool.{Bool, true, false, ◌&&◌, ◌||◌}
use mathlib.Core.Option.{Option, none, some}
use mathlib.Core.Logic.{inl, inr}
use mathlib.Core.List.Memᴰ
use mathlib.Core.List.{Memᴰ, List, [], ◌∷◌, ◌++◌, map, reverse}
use native.Mathlib.Omega.{arith}
use bomhort.Base.Tests.{leb, eqb, if◌then◌else◌, Bool-cases}

abbrev pub Text : Type 0
Text = List ℕ

abbrev pub codes : String → Text
codes String.[] = []
codes (String.◌∷◌ c s) = code c ∷ codes s

infix 50 ◌==◌
unfoldable pub ◌==◌ : Text → Text → Bool
[] == [] = true
[] == (b ∷ t) = false
(a ∷ s) == [] = false
(a ∷ s) == (b ∷ t) = eqb a b && s == t

pub ==_iff : (s t : Text) → ((s == t) ≡ true) ↔ (s ≡ t)
unfolding ◌==◌
==_iff [] [] = (λ _. refl, λ _. refl)
==_iff [] (b ∷ t) = (λ h. cc, λ h. cc)
==_iff (a ∷ s) [] = (λ h. cc, λ h. cc)
==_iff (a ∷ s) (b ∷ t) = ground (arith, ==_iff s t)

pub ==_refl : (s : Text) → (s == s) ≡ true
==_refl s = (==_iff s s).1 refl

-- unicode.IsSpace
unfoldable pub is_space : ℕ → Bool
is_space c =
    (leb 0x09 c && leb c 0x0d)
    || eqb c 0x20
    || eqb c 0x85
    || eqb c 0xa0
    || eqb c 0x1680
    || (leb 0x2000 c && leb c 0x200a)
    || eqb c 0x2028
    || eqb c 0x2029
    || eqb c 0x202f
    || eqb c 0x205f
    || eqb c 0x3000

unfoldable pub rune_upper : ℕ → ℕ
rune_upper c =
    if leb b'a' c && leb c b'z'
    then c - 32
    else (if eqb c 0x131 then b'I' else (if eqb c 0x17f then b'S' else c))

unfoldable pub rune_lower : ℕ → ℕ
rune_lower c =
    if leb b'A' c && leb c b'Z'
    then c + 32
    else (if eqb c 0x130 then b'i' else (if eqb c 0x212a then b'k' else c))

-- strings.ToUpper, strings.ToLower
unfoldable pub to_upper : Text → Text
unfolding rune_upper
to_upper s = map rune_upper s

unfoldable pub to_lower : Text → Text
unfolding rune_lower
to_lower s = map rune_lower s

unfoldable pub trim_left : Text → Text
trim_left [] = []
trim_left (c ∷ s) = if is_space c then trim_left s else c ∷ s

-- strings.TrimSpace
unfoldable pub trim_space : Text → Text
unfolding trim_left is_space
trim_space s = reverse (trim_left (reverse (trim_left s)))

-- strings.HasPrefix(s, p), with the rest of s
unfoldable pub strip_prefix : Text → Text → Option Text
strip_prefix [] s = some s
strip_prefix (a ∷ p) [] = none
strip_prefix (a ∷ p) (c ∷ s) = if eqb a c then strip_prefix p s else none

unfoldable pub has_prefix : Text → Text → Bool
has_prefix [] s = true
has_prefix (a ∷ p) [] = false
has_prefix (a ∷ p) (c ∷ s) = eqb a c && has_prefix p s

-- strings.HasSuffix(s, p)
unfoldable pub has_suffix : Text → Text → Bool
unfolding has_prefix
has_suffix p s = has_prefix (reverse p) (reverse s)

-- The part of strings.Cut(s, sep) before the first sep, if there is one.
unfoldable pub cut_before : Text → Text → Option Text
unfolding has_prefix
cut_before sep [] = if has_prefix sep [] then some [] else none
cut_before sep (c ∷ s) =
    let rest = cut_before sep s in
    if has_prefix sep (c ∷ s) then some [] else elim rest [ none ↦ none | some t ↦ some (c ∷ t) ]

abbrev pub is_empty : Text → Bool
is_empty [] = true
is_empty (c ∷ s) = false

-- strings.Fields, from within a word
unfoldable pub fields_from : Text → Text → List Text
fields_from word [] = if is_empty word then [] else word ∷ []
fields_from word (c ∷ s) = elim (is_space c) [
  | true ↦ if is_empty word then fields_from [] s else word ∷ fields_from [] s
  | false ↦ fields_from (word ++ c ∷ []) s
]

unfoldable pub fields : Text → List Text
unfolding fields_from is_space
fields s = fields_from [] s

unfoldable pub contains : List Text → Text → Bool
contains [] t = false
contains (s ∷ ss) t = s == t || contains ss t

pub has_prefix_iff : (p s : Text) → (has_prefix p s ≡ true) ↔ ((r : Text) × (s ≡ p ++ r))
unfolding has_prefix
has_prefix_iff [] s = (λ _. (s, refl), λ _. refl)
has_prefix_iff (a ∷ p) [] = (λ h. cc, λ h. cc (h.1))
has_prefix_iff (a ∷ p) (c ∷ s) = (
  λ h.
      let (r, e) = (has_prefix_iff p s).0 (ground arith) in let f : a ≡ c = ground arith in (r, cc),
  λ h.
      let (r, e) = h in
      let tails = (has_prefix_iff p s).1 (r, cc) in let f : a ≡ c = cc (e) in ground arith,
)

pub contains_iff : (ss : List Text) (t : Text) → (contains ss t ≡ true) ↔ Memᴰ t ss
unfolding contains
contains_iff [] t = (λ h. cc, λ m. absurd (Memᴰ.not-nil m))
contains_iff (s ∷ ss) t = (
  λ h. elim (Bool-cases (s == t)) [
    | inl e ↦ Memᴰ.head (sym ((==_iff s t).0 e))
    | inr e ↦ Memᴰ.tail ((contains_iff ss t).0 (ground arith))
  ],
  λ m. elim (Memᴰ.cases_cons m) [
    | inl e ↦ let same = (==_iff s t).1 (sym e) in ground arith
    | inr r ↦ let more = (contains_iff ss t).1 r in ground arith
  ],
)
