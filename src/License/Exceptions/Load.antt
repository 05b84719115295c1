-- ===== src/License/Exceptions/Load.antt =====
-- `LoadExceptionsWithFallback` (backend/internal/license/exceptions.go). `LoadExceptions`, which reads
-- and decodes a file, is a parameter; of its errors only the absence of the file is told apart.
use bomhort.Base.{
  Text, Bool, true, false, List, [], ◌∷◌, ◌++◌, Memᴰ, is_empty, ◌≡◌, ◌≢◌, ◌⊎◌, inl, inr, refl,
  if◌then◌else◌,
}
use bomhort.License.Exceptions.{ExceptionIndex}

pub data Attempt : Type 0 where
  indexed : ExceptionIndex → Attempt
  absent broken : Attempt

pub data LoadOutcome : Type 0 where
  found : ExceptionIndex → LoadOutcome
  not_found not_usable no_paths : LoadOutcome

module _ (load_exceptions : Text → Attempt) where
  -- The loop; `missed` tells that an earlier path was absent.
  unfoldable pub try_paths : Bool → List Text → LoadOutcome
  try_paths missed [] = if missed then not_found else no_paths
  try_paths missed (path ∷ paths) = elim (is_empty path) [
    | true ↦ try_paths missed paths
    | false ↦ elim (load_exceptions path) [
      | indexed idx ↦ found idx
      | absent ↦ try_paths true paths
      | broken ↦ not_usable
    ]
  ]

  unfoldable pub load_exceptions_with_fallback : List Text → LoadOutcome
  load_exceptions_with_fallback paths = try_paths false paths

-- What a file that is there makes of the whole load.
abbrev pub decided : Attempt → LoadOutcome
decided (indexed idx) = found idx
decided absent = not_found
decided broken = not_usable

try_paths-first :
    (load_exceptions : Text → Attempt) (missed : Bool) (skipped : List Text) (path : Text)
    (rest : List Text)
    → ((p : Text) → Memᴰ p skipped → (p ≡ []) ⊎ (load_exceptions p ≡ absent))
    → path ≢ []
    → load_exceptions path ≢ absent
    → try_paths load_exceptions missed (skipped ++ path ∷ rest) ≡ decided (load_exceptions path)
unfolding try_paths
try_paths-first load_exceptions missed [] [] rest pass named here = absurd (named refl)
try_paths-first load_exceptions missed [] (c ∷ path) rest pass named here =
    go (load_exceptions (c ∷ path)) here
  where
    go :
        (a : Attempt)
        → a ≢ absent
        → elim a as (λ _. LoadOutcome) [
          | indexed idx ↦ found idx
          | absent ↦ try_paths load_exceptions true rest
          | broken ↦ not_usable
        ]
          ≡ decided a
    go (indexed idx) h = refl
    go absent h = absurd (h refl)
    go broken h = refl
try_paths-first load_exceptions missed ([] ∷ skipped) path rest pass named here =
    try_paths-first load_exceptions missed skipped path rest (λ p m. pass p (Memᴰ.tail m)) named
      here
try_paths-first load_exceptions missed ((c ∷ p) ∷ skipped) path rest pass named here =
    elim (pass (c ∷ p) (Memᴰ.head refl)) [
      | inl e ↦ cc
      | inr e ↦ rw e (
          try_paths-first load_exceptions true skipped path rest (λ q m. pass q (Memᴰ.tail m)) named
            here)
    ]

-- The first path that is named and whose file is not absent decides, whatever paths follow: its
-- exceptions are used, and if it cannot be used no other file is.
pub load_exceptions_with_fallback-first :
    (load_exceptions : Text → Attempt) (skipped : List Text) (path : Text) (rest : List Text)
    → ((p : Text) → Memᴰ p skipped → (p ≡ []) ⊎ (load_exceptions p ≡ absent))
    → path ≢ []
    → load_exceptions path ≢ absent
    → load_exceptions_with_fallback load_exceptions (skipped ++ path ∷ rest)
      ≡ decided (load_exceptions path)
unfolding load_exceptions_with_fallback
load_exceptions_with_fallback-first load_exceptions skipped path rest pass named here =
    try_paths-first load_exceptions false skipped path rest pass named here
