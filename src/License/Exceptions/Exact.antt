-- ===== src/License/Exceptions/Exact.antt =====
-- What the index answers for, and what the file covers (backend/internal/license/exceptions.go).
use mathlib.Core.List.Memᴰ
use mathlib.Core.List.{reverse-append, reverse-reverse}
use bomhort.Base.{
  any-elim, any-intro, none, ◌⊎◌, Option, some, ||_iff, contains_iff, subst, Text, ◌≡◌, ◌↔◌, inl,
  inr, refl, sym, ap, ◌∙◌, Bool, true, ◌&&◌, ◌||◌, not, List, [], ◌∷◌, ◌++◌, map, reverse, ◌==◌,
  ==_iff, contains, is_empty, is_some, is_some-or_else, is_some-find, any, has_suffix,
  has_prefix_iff, arith, Memᴰ, Bool-cases, trim_space,
}
use bomhort.License.Exceptions.{
  as_answer, blanket_exemption, exemption, is_exempt, Exception, ExceptionsFile, split_licenses,
  key_of, build_index, matches_project, is_path_suffix, rule_exemption,
}
use bomhort.License.Exceptions.Covered.{by_rule, by_blanket, Covered, RuleCovers, IsNameFor, NoNul}
use bomhort.License.Exceptions.Blanket.{
  blanket_exemption_iff, not-empty_iff, is_empty→eq, is_some-map_option,
}
use bomhort.License.Exceptions.Index.{
  blankets-build_index, indexed, holds_key, any-rules-build_index, any-package_any-build_index,
  any-package_license-build_index,
}

-- Texts without the separator are read off a key.
key_of-injective :
    (s t u v : Text) → NoNul s → NoNul t → key_of s u ≡ key_of t v → (s ≡ t) × (u ≡ v)
key_of-injective [] [] u v hs ht e = (refl, cc)
key_of-injective [] (d ∷ t) u v hs ht e = absurd (ground arith)
key_of-injective (c ∷ s) [] u v hs ht e = absurd (ground arith)
key_of-injective (c ∷ s) (d ∷ t) u v hs ht e =
    let (p, q) = key_of-injective s t u v (ground arith) (ground arith) (cc) in
    let heads : c ≡ d = cc in (cc, q)

contains-key :
    (pkg name lic : Text) (lics : List Text)
    → NoNul pkg
    → NoNul name
    → (contains (map (key_of pkg) lics) (key_of name lic) ≡ true) ↔ ((name ≡ pkg) × Memᴰ lic lics)
unfolding contains
contains-key pkg name lic [] hp hn = (λ h. cc, λ h. absurd (Memᴰ.not-nil h.1))
contains-key pkg name lic (l ∷ lics) hp hn = (
  λ h. elim (Bool-cases (key_of pkg l == key_of name lic)) [
    | inl e ↦
        let (p, q) = key_of-injective pkg name l lic hp hn ((==_iff _ _).0 e) in
        (sym p, Memᴰ.head (sym q))
    | inr e ↦
        let (p, m) = (contains-key pkg name lic lics hp hn).0 (ground arith) in (p, Memᴰ.tail m)
  ],
  λ (p, m). elim (Memᴰ.cases_cons m) [
    | inl q ↦ let same = (==_iff (key_of pkg l) (key_of name lic)).1 (cc) in ground arith
    | inr r ↦ let more = (contains-key pkg name lic lics hp hn).1 (p, r) in ground arith
  ],
)

is_path_suffix_iff :
    (name pkg : Text)
    → (is_path_suffix name pkg ≡ true) ↔ ((path : Text) × (name ≡ path ++ b'/' ∷ pkg))
unfolding is_path_suffix has_suffix
is_path_suffix_iff name pkg = (
  λ h.
      let (r, e) = (has_prefix_iff (reverse (b'/' ∷ pkg)) (reverse name)).0 h in
      (
        reverse r,
        sym (reverse-reverse name)
            ∙ ap reverse e
            ∙ reverse-append (reverse (b'/' ∷ pkg)) r
            ∙ ap (λ t. reverse r ++ t) (reverse-reverse (b'/' ∷ pkg)),
      ),
  λ (path, e).
      (has_prefix_iff (reverse (b'/' ∷ pkg)) (reverse name)).1
        (reverse path, ap reverse e ∙ reverse-append path (b'/' ∷ pkg)),
)

split_licenses-nil : split_licenses [] ≡ []
unfolding split_licenses trim_space
split_licenses-nil = refl

module _ (ef : ExceptionsFile) (name lic : Text) (projects : List Text) where
  abbrev by_key : Exception → Bool
  by_key exc =
      (indexed exc && not (is_empty exc.license) && holds_key (key_of name lic) exc)
      && matches_project exc.project projects

  abbrev by_suffix : Exception → Bool
  by_suffix exc =
      indexed exc
      && ((is_path_suffix name exc.package_name && matches_project exc.project projects)
          && contains (split_licenses exc.license) lic)

  abbrev by_name : Exception → Bool
  by_name exc =
      (indexed exc && is_empty exc.license && exc.package_name == name)
      && matches_project exc.project projects

  abbrev by_any_suffix : Exception → Bool
  by_any_suffix exc =
      indexed exc
      && ((is_empty exc.license && is_path_suffix name exc.package_name)
          && matches_project exc.project projects)

  some-rule_exemption : is_some (rule_exemption (build_index ef) name lic projects) ≡ (
      any by_key ef.exceptions
      || (any by_suffix ef.exceptions
          || (any by_name ef.exceptions || any by_any_suffix ef.exceptions)))
  unfolding rule_exemption
  some-rule_exemption = simp (
    is_some-map_option, is_some-or_else, is_some-find, any-rules-build_index,
    any-package_any-build_index, any-package_license-build_index,
  )

  abbrev hit : Exception → Bool
  hit exc = by_key exc || (by_suffix exc || (by_name exc || by_any_suffix exc))

  any-or :
      (p q : Exception → Bool) (excs : List Exception)
      → any (λ e. p e || q e) excs ≡ (any p excs || any q excs)
  any-or p q [] = refl
  any-or p q (exc ∷ excs) = ground (arith, any-or p q excs)

  any-hit : is_some (rule_exemption (build_index ef) name lic projects) ≡ any hit ef.exceptions
  any-hit =
      some-rule_exemption
      ∙ sym (
          any-or by_key _ ef.exceptions
          ∙ ap (λ b. any by_key ef.exceptions || b)
              (any-or by_suffix _ ef.exceptions
                ∙ ap (λ b. any by_suffix ef.exceptions || b)
                    (any-or by_name by_any_suffix ef.exceptions)))

  -- The fields that all four tests decide.
  common :
      (exc : Exception)
      → indexed exc ≡ true
      → matches_project exc.project projects ≡ true
      → IsNameFor exc.package_name name
      → (exc.license ≡ []) ⊎ Memᴰ lic (split_licenses exc.license)
      → RuleCovers exc name lic projects
  common exc i m n l = record {
    approved = ground arith;
    named = (not-empty_iff exc.package_name).0 (ground arith);
    in_scope = m;
    for_name = n;
    for_license = l;
  }

  by_key-covers :
      (exc : Exception)
      → NoNul exc.package_name
      → NoNul name
      → by_key exc ≡ true
      → RuleCovers exc name lic projects
  by_key-covers exc hp hn h =
      let (n, l) =
        (contains-key exc.package_name name lic (split_licenses exc.license) hp hn).0
          (ground arith) in
      common exc (ground arith) (ground arith) (inl n) (inr l)

  by_suffix-covers : (exc : Exception) → by_suffix exc ≡ true → RuleCovers exc name lic projects
  by_suffix-covers exc h =
      common exc (ground arith) (ground arith)
        (inr ((is_path_suffix_iff name exc.package_name).0 (ground arith)))
        (inr ((contains_iff (split_licenses exc.license) lic).0 (ground arith)))

  by_name-covers : (exc : Exception) → by_name exc ≡ true → RuleCovers exc name lic projects
  by_name-covers exc h =
      common exc (ground arith) (ground arith)
        (inl (sym ((==_iff exc.package_name name).0 (ground arith))))
        (inl (is_empty→eq exc.license (ground arith)))

  by_any_suffix-covers :
      (exc : Exception) → by_any_suffix exc ≡ true → RuleCovers exc name lic projects
  by_any_suffix-covers exc h =
      common exc (ground arith) (ground arith)
        (inr ((is_path_suffix_iff name exc.package_name).0 (ground arith)))
        (inl (is_empty→eq exc.license (ground arith)))

  hit-covers :
      (exc : Exception)
      → NoNul exc.package_name
      → NoNul name
      → hit exc ≡ true
      → RuleCovers exc name lic projects
  hit-covers exc hp hn h = elim ((||_iff (by_key exc) _).0 h) [
    | inl k ↦ by_key-covers exc hp hn k
    | inr r ↦ elim ((||_iff (by_suffix exc) _).0 r) [
      | inl k ↦ by_suffix-covers exc k
      | inr q ↦ elim ((||_iff (by_name exc) _).0 q) [
        | inl k ↦ by_name-covers exc k
        | inr k ↦ by_any_suffix-covers exc k
      ]
    ]
  ]

  license-ne-nil : (l : Text) → Memᴰ lic (split_licenses l) → not (is_empty l) ≡ true
  license-ne-nil [] m = absurd (Memᴰ.not-nil (subst (Memᴰ lic) split_licenses-nil m))
  license-ne-nil (c ∷ l) m = refl

  covers-hit :
      (exc : Exception)
      → NoNul exc.package_name
      → NoNul name
      → RuleCovers exc name lic projects
      → hit exc ≡ true
  covers-hit exc hp hn c =
      let named = (not-empty_iff exc.package_name).1 c.named in
      let approved = c.approved in
      let in_scope = c.in_scope in
      elim c.for_name [
        | inl n ↦ elim c.for_license [
          | inl l ↦
              let same = (==_iff exc.package_name name).1 (sym n) in
              let short : is_empty exc.license ≡ true = rw l refl in ground arith
          | inr m ↦
              let key =
                (contains-key exc.package_name name lic (split_licenses exc.license) hp hn).1
                  (n, m) in
              let long = license-ne-nil exc.license m in ground arith
        ]
        | inr path ↦
            let suffix = (is_path_suffix_iff name exc.package_name).1 path in
            elim c.for_license [
              | inl l ↦ let short : is_empty exc.license ≡ true = rw l refl in ground arith
              | inr m ↦
                  let listed = (contains_iff (split_licenses exc.license) lic).1 m in ground arith
            ]
      ]

as_answer-is_some : (o : Option Text) → (as_answer o).0 ≡ is_some o
as_answer-is_some none = refl
as_answer-is_some (some reason) = refl

answer :
    (ef : ExceptionsFile) (name lic : Text) (projects : List Text)
    → (is_exempt (some (build_index ef)) name lic projects).0 ≡ (
        is_some (blanket_exemption (build_index ef) name lic projects)
        || any (hit ef name lic projects) ef.exceptions)
unfolding is_exempt exemption
answer ef name lic projects =
    as_answer-is_some _
    ∙ is_some-or_else (blanket_exemption (build_index ef) name lic projects) _
    ∙ ap (λ b. is_some (blanket_exemption (build_index ef) name lic projects) || b)
        (any-hit ef name lic projects)

-- For a package name without NUL, and a file without NUL in its package names, the index exempts exactly
-- the packages and licenses that an approved entry of the file covers.
pub is_exempt_iff :
    (ef : ExceptionsFile) (name lic : Text) (projects : List Text)
    → NoNul name
    → ((exc : Exception) → Memᴰ exc ef.exceptions → NoNul exc.package_name)
    → ((is_exempt (some (build_index ef)) name lic projects).0 ≡ true)
      ↔ Covered ef name lic projects
is_exempt_iff ef name lic projects hn hp = (
  λ h. elim ((||_iff _ _).0 (sym (answer ef name lic projects) ∙ h)) [
    | inl b ↦
        let (be, m, c) =
          (blanket_exemption_iff ef.blanket_exceptions _ name lic projects
              (blankets-build_index ef)).0
            b in
        by_blanket be m c
    | inr r ↦
        let (exc, m, k) = any-elim (hit ef name lic projects) ef.exceptions r in
        by_rule exc m (hit-covers ef name lic projects exc (hp exc m) hn k)
  ],
  λ c. answer ef name lic projects ∙ (||_iff _ _).1 (covered c),
)
  where
    covered :
        Covered ef name lic projects
        → (is_some (blanket_exemption (build_index ef) name lic projects) ≡ true)
          ⊎ (any (hit ef name lic projects) ef.exceptions ≡ true)
    covered (by_blanket be m c) = inl (
        (blanket_exemption_iff ef.blanket_exceptions _ name lic projects
            (blankets-build_index ef)).1
          (be, m, c))
    covered (by_rule exc m c) =
        inr (any-intro _ ef.exceptions exc m (covers-hit ef name lic projects exc (hp exc m) hn c))
