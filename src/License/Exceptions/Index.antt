-- ===== src/License/Exceptions/Index.antt =====
-- The package part of the index (backend/internal/license/exceptions.go): what each of its maps
-- holds, told by the entries of the file.
use bomhort.Base.{
  Text, ◌≡◌, refl, ◌∙◌, Bool, ◌&&◌, ◌||◌, not, List, [], ◌∷◌, map, ◌==◌, contains, is_empty,
  slice_at, append_at, slice_at-append_at, any, any-append, arith,
}
use bomhort.License.Exceptions.{
  Exception, ExceptionIndex, ExceptionsFile, status_is_approved, split_licenses, key_of, add_pairs,
  add_exception, add_exceptions, build_index, add_blankets,
}

-- The entries that are indexed at all.
abbrev pub indexed : Exception → Bool
indexed exc = status_is_approved exc.status && not (is_empty exc.package_name)

abbrev pub holds_key : Text → Exception → Bool
holds_key k exc = contains (map (key_of exc.package_name) (split_licenses exc.license)) k

-- Appending entries to a slice a few times over leaves the same entries to be found.
any-slice_at-add_pairs :
    (f : Exception → Bool) (exc : Exception) (lics : List Text) (m : List (Text × List Exception))
    (k : Text)
    → any f (slice_at k (add_pairs exc lics m))
      ≡ (any f (slice_at k m) || contains (map (key_of exc.package_name) lics) k && f exc)
unfolding add_pairs contains
any-slice_at-add_pairs f exc [] m k = ground arith
any-slice_at-add_pairs f exc (lic ∷ lics) m k =
    any-slice_at-add_pairs f exc lics (append_at (key_of exc.package_name lic) exc m) k
    ∙ ground (
      arith,
      slice_at-append_at (key_of exc.package_name lic) k exc m,
      any-append f (slice_at k m) (exc ∷ []),
    )

module _ (f : Exception → Bool) (idx : ExceptionIndex) (exc : Exception) where
  any-rules-add_exception :
      any f (add_exception idx exc).package_rules
      ≡ (any f idx.package_rules || indexed exc && f exc)
  unfolding add_exception
  any-rules-add_exception = ground (arith, any-append f idx.package_rules (exc ∷ []))

  any-package_any-add_exception :
      (k : Text)
      → any f (slice_at k (add_exception idx exc).package_any) ≡ (
          any f (slice_at k idx.package_any)
          || (indexed exc && is_empty exc.license && exc.package_name == k) && f exc)
  unfolding add_exception
  any-package_any-add_exception k = ground (
    arith,
    slice_at-append_at exc.package_name k exc idx.package_any,
    any-append f (slice_at k idx.package_any) (exc ∷ []),
  )

  any-package_license-add_exception :
      (k : Text)
      → any f (slice_at k (add_exception idx exc).package_license) ≡ (
          any f (slice_at k idx.package_license)
          || (indexed exc && not (is_empty exc.license) && holds_key k exc) && f exc)
  unfolding add_exception
  any-package_license-add_exception k =
      ground
        (arith, any-slice_at-add_pairs f exc (split_licenses exc.license) idx.package_license k)

regroup : (a b c d : Bool) → a ≡ (b || c) → (a || d) ≡ (b || (c || d))
regroup a b c d e = ground arith

module _ (f : Exception → Bool) where
  any-rules :
      (excs : List Exception) (idx : ExceptionIndex)
      → any f (add_exceptions idx excs).package_rules
        ≡ (any f idx.package_rules || any (λ exc. indexed exc && f exc) excs)
  unfolding add_exceptions
  any-rules [] idx = ground arith
  any-rules (exc ∷ excs) idx =
      any-rules excs (add_exception idx exc) ∙ regroup _ _ _ _ (any-rules-add_exception f idx exc)

  any-package_any :
      (excs : List Exception) (idx : ExceptionIndex) (k : Text)
      → any f (slice_at k (add_exceptions idx excs).package_any) ≡ (
          any f (slice_at k idx.package_any)
          || any
              (λ exc. (indexed exc && is_empty exc.license && exc.package_name == k) && f exc)
              excs)
  unfolding add_exceptions
  any-package_any [] idx k = ground arith
  any-package_any (exc ∷ excs) idx k =
      any-package_any excs (add_exception idx exc) k
      ∙ regroup _ _ _ _ (any-package_any-add_exception f idx exc k)

  any-package_license :
      (excs : List Exception) (idx : ExceptionIndex) (k : Text)
      → any f (slice_at k (add_exceptions idx excs).package_license) ≡ (
          any f (slice_at k idx.package_license)
          || any
              (λ exc. (indexed exc && not (is_empty exc.license) && holds_key k exc) && f exc)
              excs)
  unfolding add_exceptions
  any-package_license [] idx k = ground arith
  any-package_license (exc ∷ excs) idx k =
      any-package_license excs (add_exception idx exc) k
      ∙ regroup _ _ _ _ (any-package_license-add_exception f idx exc k)

module _ (f : Exception → Bool) (ef : ExceptionsFile) where
  pub any-rules-build_index :
      any f (build_index ef).package_rules ≡ any (λ exc. indexed exc && f exc) ef.exceptions
  unfolding build_index
  any-rules-build_index = any-rules f ef.exceptions _

  pub any-package_any-build_index :
      (k : Text)
      → any f (slice_at k (build_index ef).package_any)
        ≡ any
            (λ exc. (indexed exc && is_empty exc.license && exc.package_name == k) && f exc)
            ef.exceptions
  unfolding build_index slice_at bomhort.Base.lookup
  any-package_any-build_index k = any-package_any f ef.exceptions _ k

  pub any-package_license-build_index :
      (k : Text)
      → any f (slice_at k (build_index ef).package_license)
        ≡ any
            (λ exc. (indexed exc && not (is_empty exc.license) && holds_key k exc) && f exc)
            ef.exceptions
  unfolding build_index slice_at bomhort.Base.lookup
  any-package_license-build_index k = any-package_license f ef.exceptions _ k

blankets-add_exceptions :
    (idx : ExceptionIndex) (excs : List Exception)
    → (add_exceptions idx excs).blanket_licenses ≡ idx.blanket_licenses
unfolding add_exceptions add_exception
blankets-add_exceptions idx [] = refl
blankets-add_exceptions idx (exc ∷ excs) =
    blankets-add_exceptions (add_exception idx exc) excs ∙ ground arith

pub blankets-build_index :
    (ef : ExceptionsFile)
    → (build_index ef).blanket_licenses ≡ add_blankets ef.blanket_exceptions []
unfolding build_index
blankets-build_index ef = blankets-add_exceptions _ ef.exceptions
