-- ===== src/License/Exceptions/Blanket.antt =====
-- The blanket part of the index (backend/internal/license/exceptions.go).
use mathlib.Core.List.{reverse-reverse}
use bomhort.Base.{
  split-reverse, reverse-middle, ℕ, eqb_iff, &&_iff, ||_iff, is_some-or_else, Text, ◌≡◌, ◌≢◌, ◌↔◌,
  inl, inr, refl, sym, ap, ◌∙◌, subst, Bool, true, false, ◌&&◌, ◌||◌, not, Option, none, some, List,
  [], ◌∷◌, ◌++◌, reverse, contains, contains_iff, is_empty, lookup, insert, lookup-insert, is_some,
  any, any-elim, any-intro, eqb, if◌then◌else◌, arith, Memᴰ, Bool-cases,
}
use bomhort.License.Exceptions.{
  BlanketException, ExceptionIndex, status_is_approved, split_licenses, add_blanket_ids,
  add_blankets, blanket_base, blanket_exemption, map_option,
}
use bomhort.License.Exceptions.Covered.{BlanketCovers}

lookup-add_blanket_ids :
    (be : BlanketException) (lics : List Text) (m : List (Text × BlanketException)) (k : Text)
    → is_some (lookup k (add_blanket_ids be lics m)) ≡ (contains lics k || is_some (lookup k m))
unfolding add_blanket_ids contains
lookup-add_blanket_ids be [] m k = refl
lookup-add_blanket_ids be (lic ∷ lics) m k =
    lookup-add_blanket_ids be lics (insert lic be m) k ∙ ground (arith, lookup-insert lic k be m)

abbrev grants : Text → BlanketException → Bool
grants k be = status_is_approved be.status && contains (split_licenses be.license) k

lookup-add_blankets :
    (bes : List BlanketException) (m : List (Text × BlanketException)) (k : Text)
    → is_some (lookup k (add_blankets bes m)) ≡ (any (grants k) bes || is_some (lookup k m))
unfolding add_blankets
lookup-add_blankets [] m k = refl
lookup-add_blankets (be ∷ bes) m k =
    let next =
      if status_is_approved be.status
      then add_blanket_ids be (split_licenses be.license) m
      else m in
    lookup-add_blankets bes next k
    ∙ ground (arith, lookup-add_blanket_ids be (split_licenses be.license) m k)

-- Some dash of the reversed license, not at its end, is followed by a base in the map.
abbrev HasBase : List (Text × BlanketException) → Text → Type 0
HasBase m r =
    (u v : Text) × (v ≢ []) × (r ≡ u ++ b'-' ∷ v) × (is_some (lookup (reverse v) m) ≡ true)

blanket_base-cons :
    (m : List (Text × BlanketException)) (c : ℕ) (r : Text)
    → is_some (blanket_base m (c ∷ r)) ≡ (
        (eqb c b'-' && not (is_empty r)) && is_some (lookup (reverse r) m)
        || is_some (blanket_base m r))
unfolding blanket_base
blanket_base-cons m c r = ground arith

pub is_empty→eq : (s : Text) → is_empty s ≡ true → s ≡ []
is_empty→eq [] h = refl
is_empty→eq (c ∷ s) h = cc

pub not-empty_iff : (s : Text) → (not (is_empty s) ≡ true) ↔ (s ≢ [])
not-empty_iff [] = (λ h. cc, λ h. absurd (h refl))
not-empty_iff (c ∷ s) = (λ h e. cc, λ h. refl)

HasBase-blanket_base :
    (m : List (Text × BlanketException)) (r : Text)
    → is_some (blanket_base m r) ≡ true
    → HasBase m r
HasBase-blanket_base m [] h = unfold blanket_base in cc
HasBase-blanket_base m (c ∷ r) h =
    elim (Bool-cases ((eqb c b'-' && not (is_empty r)) && is_some (lookup (reverse r) m))) [
      | inl here ↦
          let ((dash, long), known) = parts (eqb c b'-') (not (is_empty r)) _ here in
          let e : c ≡ b'-' = (eqb_iff c b'-').0 dash in
          ([], r, (not-empty_iff r).0 long, ap (λ d. d ∷ r) e, known)
      | inr past ↦
          let rest = rw past at (sym (blanket_base-cons m c r) ∙ h) in
          let (u, v, long, e, known) = HasBase-blanket_base m r rest in
          (c ∷ u, v, long, ap (λ s. c ∷ s) e, known)
    ]
  where
    parts : (x y z : Bool) → (x && y && z) ≡ true → ((x ≡ true) × (y ≡ true)) × (z ≡ true)
    parts true true true h = ((refl, refl), refl)
    parts true true false h = cc
    parts true false z h = cc
    parts false y z h = cc

blanket_base-HasBase :
    (m : List (Text × BlanketException)) (r u v : Text)
    → v ≢ []
    → r ≡ u ++ b'-' ∷ v
    → is_some (lookup (reverse v) m) ≡ true
    → is_some (blanket_base m r) ≡ true
blanket_base-HasBase m r [] v long e known =
    rw (e, blanket_base-cons m b'-' v, (not-empty_iff v).1 long, known) refl
blanket_base-HasBase m r (c ∷ u) v long e known =
    rw
      (
        e,
        blanket_base-cons m c (u ++ b'-' ∷ v),
        blanket_base-HasBase m (u ++ b'-' ∷ v) u v long refl known,
      )
      (ground arith)

in_nil :
    (bes : List BlanketException) (k : Text) {x : Bool}
    → x ≡ (any (grants k) bes || is_some {A = BlanketException} (lookup k []))
    → x ≡ true
    → any (grants k) bes ≡ true
unfolding lookup
in_nil bes k e h = ground arith

-- The map holds exactly the licenses that an approved entry lists.
lookup-index :
    (bes : List BlanketException) (k : Text)
    → (is_some (lookup k (add_blankets bes [])) ≡ true) ↔ (
        (be : BlanketException) × Memᴰ be bes
        × (status_is_approved be.status ≡ true)
        × Memᴰ k (split_licenses be.license))
lookup-index bes k = (
  λ h.
      let (be, m, g) = any-elim (grants k) bes (in_nil bes k (lookup-add_blankets bes [] k) h) in
      let (a, c) =
        (&&_iff (status_is_approved be.status) (contains (split_licenses be.license) k)).0 g in
      (be, m, a, (contains_iff _ k).0 c),
  λ (be, m, a, c).
      let held = any-intro (grants k) bes be m ((&&_iff _ _).1 (a, (contains_iff _ k).1 c)) in
      lookup-add_blankets bes [] k ∙ rw held refl,
)

pub is_some-map_option :
    {A B : Type 0} (f : A → B) (o : Option A) → is_some (map_option f o) ≡ is_some o
is_some-map_option f none = refl
is_some-map_option f (some a) = refl

some-blanket_exemption :
    (idx : ExceptionIndex) (name lic : Text) (projects : List Text)
    → is_some (blanket_exemption idx name lic projects) ≡ (
        is_some (lookup lic idx.blanket_licenses)
        || is_some (blanket_base idx.blanket_licenses (reverse lic)))
unfolding blanket_exemption
some-blanket_exemption idx name lic projects = simp (is_some-or_else, is_some-map_option)

reverse-ne-nil : (s : Text) → s ≢ [] → reverse s ≢ []
reverse-ne-nil s h e = h (sym (reverse-reverse s) ∙ ap reverse e)

-- Steps 1 and 1b answer exactly for the licenses that an approved blanket entry covers.
pub blanket_exemption_iff :
    (bes : List BlanketException) (idx : ExceptionIndex) (name lic : Text) (projects : List Text)
    → idx.blanket_licenses ≡ add_blankets bes []
    → (is_some (blanket_exemption idx name lic projects) ≡ true)
      ↔ ((be : BlanketException) × Memᴰ be bes × BlanketCovers be lic)
blanket_exemption_iff bes idx name lic projects e = (
  λ h. elim ((||_iff _ _).0 (sym split ∙ h)) [
    | inl exact ↦
        let (be, m, a, l) = (lookup-index bes lic).0 exact in
        (be, m, record { approved = a; base = lic; listed = l; matches = inl refl })
    | inr deep ↦
        let (u, v, long, q, known) = HasBase-blanket_base _ (reverse lic) deep in
        let (be, m, a, l) = (lookup-index bes (reverse v)).0 known in
        (
          be,
          m,
          record {
            approved = a;
            base = reverse v;
            listed = l;
            matches = inr (reverse u, reverse-ne-nil v long, split-reverse lic u v b'-' q);
          },
        )
  ],
  λ (be, m, c).
      split
      ∙ (||_iff _ _).1 (elim c.matches [
        | inl same ↦ inl (
            (lookup-index bes lic).1 (
              be,
              m,
              c.approved,
              subst (λ l. Memᴰ l (split_licenses be.license)) (sym same) c.listed,
            ))
        | inr (rest, long, q) ↦ inr (
            blanket_base-HasBase _ (reverse lic) (reverse rest) (reverse c.base)
              (reverse-ne-nil c.base long) (ap reverse q ∙ reverse-middle c.base rest b'-')
              (rw reverse-reverse ((lookup-index bes c.base).1 (be, m, c.approved, c.listed))))
      ]),
)
  where
    split : is_some (blanket_exemption idx name lic projects) ≡ (
        is_some (lookup lic (add_blankets bes []))
        || is_some (blanket_base (add_blankets bes []) (reverse lic)))
    split =
        some-blanket_exemption idx name lic projects
        ∙ ap (λ m. is_some (lookup lic m) || is_some (blanket_base m (reverse lic))) e
