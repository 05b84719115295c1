-- ===== src/Base/Maps.antt =====
-- Go's maps with string keys as association lists, and searches in slices.
use mathlib.Core.List.Memᴰ
use mathlib.Core.Logic.{inl, inr}
use mathlib.Core.Path.{◌≡◌, refl, sym, subst}
use mathlib.Core.Bool.{Bool, ◌||◌}
use mathlib.Core.Option.{Option, none, some}
use mathlib.Core.List.{List, [], ◌∷◌, ◌++◌, Memᴰ}
use native.Mathlib.Omega.{arith}
use bomhort.Base.Tests.{Bool-cases, if◌then◌else◌, is_some}
use bomhort.Base.Lists.{any}
use bomhort.Base.Texts.{Text, ◌==◌, ==_iff}

module _ {ℓ} {V : Type ℓ} where
  unfoldable pub lookup : Text → List (Text × V) → Option V
  lookup key [] = none
  lookup key (entry ∷ entries) = if entry.0 == key then some entry.1 else lookup key entries

  -- The entry of a key is replaced by what `f` makes of it, or added.
  unfoldable pub alter : Text → (Option V → V) → List (Text × V) → List (Text × V)
  alter key f [] = (key, f none) ∷ []
  alter key f (entry ∷ entries) =
      if entry.0 == key then (entry.0, f (some entry.1)) ∷ entries else entry ∷ alter key f entries

  pub lookup-alter :
      (key other : Text) (f : Option V → V) (entries : List (Text × V))
      → lookup other (alter key f entries)
        ≡ (if key == other then some (f (lookup key entries)) else lookup other entries)
  unfolding lookup alter
  lookup-alter key other f [] = refl
  lookup-alter key other f (entry ∷ entries) = ground (
    arith,
    lookup-alter key other f entries,
    ==_iff key other,
    ==_iff entry.0 key,
    ==_iff entry.0 other,
  )

  -- m[key] = v
  unfoldable pub insert : Text → V → List (Text × V) → List (Text × V)
  insert key v entries = alter key (λ _. v) entries

  pub lookup-insert :
      (key other : Text) (v : V) (entries : List (Text × V))
      → lookup other (insert key v entries)
        ≡ (if key == other then some v else lookup other entries)
  unfolding insert
  lookup-insert key other v entries = lookup-alter key other (λ _. v) entries

  abbrev slice_of : Option (List V) → List V
  slice_of none = []
  slice_of (some vs) = vs

module _ {ℓ} {V : Type ℓ} where
  -- m[key], where a missing key reads as the empty slice
  unfoldable pub slice_at : Text → List (Text × List V) → List V
  slice_at key entries = slice_of (lookup key entries)

  -- m[key] = append(m[key], v)
  unfoldable pub append_at : Text → V → List (Text × List V) → List (Text × List V)
  append_at key v entries = alter key (λ vs. slice_of vs ++ v ∷ []) entries

  pub slice_at-append_at :
      (key other : Text) (v : V) (entries : List (Text × List V))
      → slice_at other (append_at key v entries)
        ≡ (if key == other then slice_at other entries ++ v ∷ [] else slice_at other entries)
  unfolding slice_at append_at
  slice_at-append_at key other v entries =
      ground (arith, lookup-alter key other (λ vs. slice_of vs ++ v ∷ []) entries, ==_iff key other)

module _ {ℓ κ} {V : Type ℓ} (P : V → Type κ) where
  abbrev pub HoldsIn : List (Text × List V) → Type (ℓ ⊔ κ)
  HoldsIn entries = (e : Text × List V) → Memᴰ e entries → (x : V) → Memᴰ x e.1 → P x

  -- What holds of every value of a map of slices still does when a value is appended for which it holds.
  pub append_at-HoldsIn :
      (key : Text) (v : V) (entries : List (Text × List V))
      → P v
      → HoldsIn entries
      → HoldsIn (append_at key v entries)
  unfolding append_at alter
  append_at-HoldsIn key v [] p h e m x k =
      let same = Memᴰ.eq_of_singleton m in
      let last : Memᴰ x (v ∷ []) = subst (λ (y : Text × List V). Memᴰ x y.1) same k in
      subst P (sym (Memᴰ.eq_of_singleton last)) p
  append_at-HoldsIn key v (entry ∷ entries) p h e m x k = elim (Bool-cases (entry.0 == key)) [
    | inl b ↦ elim (Memᴰ.cases_cons (rw b at m)) [
      | inl same ↦
          let joined : Memᴰ x (entry.1 ++ v ∷ []) =
            subst (λ (y : Text × List V). Memᴰ x y.1) same k in
          elim (Memᴰ.append_cases entry.1 joined) [
            | inl old ↦ h entry (Memᴰ.head refl) x old
            | inr new ↦ subst P (sym (Memᴰ.eq_of_singleton new)) p
          ]
      | inr t ↦ h e (Memᴰ.tail t) x k
    ]
    | inr b ↦ elim (Memᴰ.cases_cons (rw b at m)) [
      | inl same ↦ h e (Memᴰ.head same) x k
      | inr t ↦ append_at-HoldsIn key v entries p (λ f q. h f (Memᴰ.tail q)) e t x k
    ]
  ]

module _ {ℓ} {A : Type ℓ} where
  unfoldable pub find : (A → Bool) → List A → Option A
  find p [] = none
  find p (x ∷ xs) = if p x then some x else find p xs

  pub is_some-find : (p : A → Bool) (xs : List A) → is_some (find p xs) ≡ any p xs
  unfolding find
  is_some-find p [] = refl
  is_some-find p (x ∷ xs) = ground (arith, is_some-find p xs)

  abbrev pub or_else : Option A → Option A → Option A
  or_else none b = b
  or_else (some a) b = some a

  pub is_some-or_else : (a b : Option A) → is_some (or_else a b) ≡ (is_some a || is_some b)
  is_some-or_else none b = refl
  is_some-or_else (some a) b = refl
