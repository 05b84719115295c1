-- ===== src/ProjectGroup/Described.antt =====
-- `Resolve` of backend/internal/projectgroup/projectgroup.go, one project at a time.
use mathlib.Core.List.Memᴰ
use bomhort.Base.{
  Text, Option, some, none, List, [], keep, lookup, slice_at, or_else, Distinct, Distinct-map-inj,
  Memᴰ, ◌≡◌, ◌≢◌, inl, inr, refl, sym, ap, ◌∙◌,
}
use bomhort.ProjectGroup.{Library, Signals, Assignment, lower}
use bomhort.ProjectGroup.Rules.{Rules}
use bomhort.ProjectGroup.Resolve.{
  Candidate, Decision, Pending, untouched, assigned, waiting, decide, decide_all, is_top,
  join_families, resolve,
}
use bomhort.ProjectGroup.Families.{
  grouped, projects_of, members_of, slice-decide_all, own, own-decide_all,
}
use bomhort.ProjectGroup.Joined.{parent_by, join_families-own, join_families-other}
use bomhort.ProjectGroup.Waiting.{
  queued, IsNamed, decide-IsNamed, grouped-decide_all, grouped-Waits, members_of-Memᴰ,
  slice_at-Memᴰ,
}

-- The parent of a project that waits in its family.
abbrev pub family_parent : Candidate → List Candidate → Option Assignment
family_parent c members = parent_by c (keep is_top members) members

-- The parent of a project: what its own signals decide, or else what the projects of the same owner do.
unfoldable pub described : Library → Option Rules → List Signals → Decision → Option Assignment
described lib rules signals untouched = none
described lib rules signals (assigned a) = some a
described lib rules signals (waiting c) =
    family_parent c (members_of lib rules (projects_of signals) (lower lib c.owner) signals)

or_else-none : (o : Option Assignment) → or_else o none ≡ o
or_else-none none = refl
or_else-none (some a) = refl

named-waiting : (p : Text) (c : Candidate) → IsNamed p (waiting c) → c.project ≡ p
named-waiting p c (queued e) = e

module _ (lib : Library) (signals : List Signals) (rules : Option Rules) where
  abbrev names : List Text
  names = projects_of signals

  abbrev start : Pending
  start = record { out = []; families = [] }

  abbrev decided : Pending
  decided = decide_all lib rules names signals start

  not_grouped :
      (s : Signals)
      → Distinct names
      → Memᴰ s signals
      → ((c : Candidate) → decide lib rules names s ≢ waiting c)
      → ¬ Memᴰ s.project (grouped decided.families)
  not_grouped s d m busy k = elim (grouped-Waits lib rules names s.project signals start k) [
    | inl q ↦ absurd (Memᴰ.not-nil q)
    | inr (t, q, e, (c, w)) ↦
        let one = Distinct-map-inj (λ (x : Signals). x.project) s t signals d m q e in
        absurd (busy c (ap (decide lib rules names) one ∙ w))
  ]

  decided-own :
      (s : Signals)
      → Distinct names
      → Memᴰ s signals
      → lookup s.project decided.out ≡ own (decide lib rules names s) none
  unfolding lookup
  decided-own s d m = own-decide_all lib rules names s signals start d m

  decided-slice :
      (key : Text) → slice_at key decided.families ≡ members_of lib rules names key signals
  unfolding slice_at lookup
  decided-slice key = slice-decide_all lib rules names key signals start

  resolve-own :
      (s : Signals) (d : Decision)
      → decide lib rules names s ≡ d
      → Distinct names
      → Memᴰ s signals
      → lookup s.project (join_families decided.families decided.out)
        ≡ described lib rules signals d
  unfolding described
  resolve-own s untouched e d m =
      join_families-other s.project decided.families decided.out
        (not_grouped s d m (λ c w. let clash : untouched ≡ waiting c = sym e ∙ w in cc))
      ∙ decided-own s d m
      ∙ ap (λ x. own x none) e
  resolve-own s (assigned a) e d m =
      join_families-other s.project decided.families decided.out
        (not_grouped s d m (λ c w. let clash : assigned a ≡ waiting c = sym e ∙ w in cc))
      ∙ decided-own s d m
      ∙ ap (λ x. own x none) e
  resolve-own s (waiting c) e d m =
      let key = lower lib c.owner in
      let slice = decided-slice key in
      let c_in : Memᴰ c (slice_at key decided.families) =
        rw slice (members_of-Memᴰ lib rules names s c signals e m) in
      let same = named-waiting s.project c (rw e at (decide-IsNamed lib rules names s)) in
      let alone : lookup c.project decided.out ≡ none =
        ap (λ q. lookup q decided.out) same ∙ decided-own s d m ∙ ap (λ x. own x none) e in
      ap (λ q. lookup q (join_families decided.families decided.out)) (sym same)
      ∙ join_families-own c key (slice_at key decided.families) decided.families decided.out
          (grouped-decide_all lib rules names signals start d)
          (slice_at-Memᴰ key c decided.families c_in) c_in
      ∙ ap (or_else (family_parent c (slice_at key decided.families))) alone
      ∙ or_else-none (family_parent c (slice_at key decided.families))
      ∙ ap (family_parent c) slice

-- Where each project has its signals once, the parent of a project that `Resolve` returns is the described one: what the
-- mapping file, the ingest or a tag decides for it; for a project left to its owner, the only top-level
-- project among the projects left to the same owner up to case, unless that is the project itself; without a top-level project,
-- the label of the family, if it has two members; and otherwise none.
pub resolve-described :
    (lib : Library) (signals : List Signals) (rules : Option Rules) (s : Signals)
    → Distinct (projects_of signals)
    → Memᴰ s signals
    → lookup s.project (resolve lib signals rules)
      ≡ described lib rules signals (decide lib rules (projects_of signals) s)
unfolding resolve
resolve-described lib signals rules s d m =
    resolve-own lib signals rules s (decide lib rules (projects_of signals) s) refl d m
