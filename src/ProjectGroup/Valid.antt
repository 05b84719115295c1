-- ===== src/ProjectGroup/Valid.antt =====
-- Which mapping files `ParseRules` accepts (backend/internal/projectgroup/rules.go).
use bomhort.Base.{
  ℕ, suc, Bool, true, false, ◌&&◌, ◌||◌, not, some, List, [], ◌∷◌, map, all, is_empty, trim_space,
  eqb, ◌≡◌, refl, inl, inr, arith, Bool-cases,
}
use bomhort.ProjectGroup.{Library}
use bomhort.ProjectGroup.Rules.{
  Group, File, CompiledGroup, RulesError, refused, accepted, compile_group, compile_groups,
  parse_rules, match_size, no_parent, parent_and_standalone, empty_match,
}

-- A group has a parent or stands alone, not both, and its match names something.
abbrev pub is_valid : Group → Bool
is_valid g =
    let unnamed = is_empty (trim_space g.parent) in
    ((unnamed && g.standalone) || (not unnamed && not g.standalone))
    && not (eqb (match_size g.match_on) 0)

abbrev pub trimmed : Library → Group → CompiledGroup
trimmed lib g = compile_group lib (record g { parent = trim_space g.parent })

compile_groups-valid :
    (lib : Library) (i : ℕ) (gs : List Group)
    → all is_valid gs ≡ true
    → compile_groups lib i gs ≡ accepted (map (trimmed lib) gs)
unfolding compile_groups
compile_groups-valid lib i [] h = refl
compile_groups-valid lib i (g ∷ gs) h =
    let rest = compile_groups-valid lib (suc i) gs (ground arith) in
    elim (Bool-cases (is_empty (trim_space g.parent))) [
      | inl e ↦ elim (Bool-cases g.standalone) [
        | inl s ↦
            let size : eqb (match_size g.match_on) 0 ≡ false = ground arith in
            rw (e, s, size, rest) refl
        | inr s ↦ absurd (ground arith)
      ]
      | inr e ↦ elim (Bool-cases g.standalone) [
        | inl s ↦ absurd (ground arith)
        | inr s ↦
            let size : eqb (match_size g.match_on) 0 ≡ false = ground arith in
            rw (e, s, size, rest) refl
      ]
    ]

compile_groups-invalid :
    (lib : Library) (i : ℕ) (gs : List Group)
    → all is_valid gs ≡ false
    → (e : RulesError) × (compile_groups lib i gs ≡ refused e)
unfolding compile_groups
compile_groups-invalid lib i [] h = cc
compile_groups-invalid lib i (g ∷ gs) h =
    elim (Bool-cases (is_empty (trim_space g.parent) && not g.standalone)) [
      | inl e ↦ (no_parent i, rw e refl)
      | inr e ↦ elim (Bool-cases (not (is_empty (trim_space g.parent)) && g.standalone)) [
        | inl k ↦ (parent_and_standalone i, rw (e, k) refl)
        | inr k ↦ elim (Bool-cases (eqb (match_size g.match_on) 0)) [
          | inl z ↦ (empty_match i, rw (e, k, z) refl)
          | inr z ↦
              let (err, rest) = compile_groups-invalid lib (suc i) gs (ground arith) in
              (err, rw (e, k, z, rest) refl)
        ]
      ]
    ]

-- `ParseRules` compiles every group of a decoded file, its parent trimmed, if each group has a parent or
-- stands alone, not both, and has a match; otherwise it refuses the file.
pub parse_rules-valid :
    (lib : Library) (file : File)
    → (all is_valid file.groups ≡ true
        → parse_rules lib (some file) ≡ accepted (map (trimmed lib) file.groups))
      × (all is_valid file.groups ≡ false
          → (e : RulesError) × (parse_rules lib (some file) ≡ refused e))
unfolding parse_rules
parse_rules-valid lib file =
    (compile_groups-valid lib 0 file.groups, compile_groups-invalid lib 0 file.groups)
