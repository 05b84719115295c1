-- ===== src/ProjectGroup/Families.antt =====
-- The families that `Resolve` of backend/internal/projectgroup/projectgroup.go builds.
use mathlib.Core.List.Memᴰ
use bomhort.Base.{
  map-Memᴰ, Distinct-tail, Distinct-head, ==_refl, Text, false, Option, some, List, [], ◌∷◌, ◌++◌,
  map, ◌==◌, ==_iff, lookup, lookup-insert, slice_at, slice_at-append_at, append_assoc, append-nil,
  Distinct, Memᴰ, ◌≡◌, ◌≢◌, inl, inr, refl, sym, ap, ◌∙◌, arith, Bool-cases, if◌then◌else◌,
}
use bomhort.ProjectGroup.{Library, Signals, Assignment, lower}
use bomhort.ProjectGroup.Rules.{Rules}
use bomhort.ProjectGroup.Resolve.{
  Candidate, Families, Decision, Pending, untouched, assigned, waiting, decide, take_decision,
  decide_all,
}

abbrev pub names_of : List Candidate → List Text
names_of ms = map (λ m. m.project) ms

-- The projects of all families.
abbrev pub grouped : Families → List Text
grouped [] = []
grouped ((key, members) ∷ families) = names_of members ++ grouped families

abbrev pub projects_of : List Signals → List Text
projects_of signals = map (λ s. s.project) signals

-- The candidate that a decision leaves to the family of a key.
abbrev pub waits_for : Library → Text → Decision → List Candidate
waits_for lib key untouched = []
waits_for lib key (assigned a) = []
waits_for lib key (waiting c) = if lower lib c.owner == key then c ∷ [] else []

-- The members of a family, read off the decisions.
unfoldable pub members_of :
    Library → Option Rules → List Text → Text → List Signals → List Candidate
members_of lib rules names key [] = []
members_of lib rules names key (s ∷ signals) =
    waits_for lib key (decide lib rules names s) ++ members_of lib rules names key signals

slice-take_decision :
    (lib : Library) (project key : Text) (d : Decision) (p : Pending)
    → slice_at key (take_decision lib project d p).families
      ≡ slice_at key p.families ++ waits_for lib key d
slice-take_decision lib project key untouched p = sym (append-nil (slice_at key p.families))
slice-take_decision lib project key (assigned a) p = sym (append-nil (slice_at key p.families))
slice-take_decision lib project key (waiting c) p = elim (Bool-cases (lower lib c.owner == key)) [
  | inl e ↦ slice_at-append_at (lower lib c.owner) key c p.families ∙ rw e refl
  | inr e ↦
      slice_at-append_at (lower lib c.owner) key c p.families
      ∙ rw e (sym (append-nil (slice_at key p.families)))
]

pub slice-decide_all :
    (lib : Library) (rules : Option Rules) (names : List Text) (key : Text) (signals : List Signals)
    (p : Pending)
    → slice_at key (decide_all lib rules names signals p).families
      ≡ slice_at key p.families ++ members_of lib rules names key signals
unfolding decide_all members_of
slice-decide_all lib rules names key [] p = sym (append-nil (slice_at key p.families))
slice-decide_all lib rules names key (s ∷ signals) p =
    let d = decide lib rules names s in
    slice-decide_all lib rules names key signals (take_decision lib s.project d p)
    ∙ ap (λ ms. ms ++ members_of lib rules names key signals)
        (slice-take_decision lib s.project key d p)
    ∙ append_assoc (slice_at key p.families) (waits_for lib key d)
        (members_of lib rules names key signals)

-- What the loop over the signals assigns to a project itself.
abbrev pub own : Decision → Option Assignment → Option Assignment
own untouched o = o
own (assigned a) o = some a
own (waiting c) o = o

lookup-take_decision :
    (lib : Library) (project q : Text) (d : Decision) (p : Pending)
    → project ≢ q
    → lookup q (take_decision lib project d p).out ≡ lookup q p.out
lookup-take_decision lib project q untouched p h = refl
lookup-take_decision lib project q (assigned a) p h =
    let other : (project == q) ≡ false = ground (arith, ==_iff project q) in
    lookup-insert project q a p.out ∙ rw other refl
lookup-take_decision lib project q (waiting c) p h = refl

own-take_decision :
    (lib : Library) (project : Text) (d : Decision) (p : Pending)
    → lookup project (take_decision lib project d p).out ≡ own d (lookup project p.out)
own-take_decision lib project untouched p = refl
own-take_decision lib project (assigned a) p =
    lookup-insert project project a p.out ∙ rw (==_refl project) refl
own-take_decision lib project (waiting c) p = refl

lookup-decide_all :
    (lib : Library) (rules : Option Rules) (names : List Text) (q : Text) (signals : List Signals)
    (p : Pending)
    → ¬ Memᴰ q (projects_of signals)
    → lookup q (decide_all lib rules names signals p).out ≡ lookup q p.out
unfolding decide_all
lookup-decide_all lib rules names q [] p h = refl
lookup-decide_all lib rules names q (s ∷ signals) p h =
    lookup-decide_all lib rules names q signals
      (take_decision lib s.project (decide lib rules names s) p) (λ m. h (Memᴰ.tail m))
    ∙ lookup-take_decision lib s.project q (decide lib rules names s) p (λ e. h (Memᴰ.head (sym e)))

pub own-decide_all :
    (lib : Library) (rules : Option Rules) (names : List Text) (s : Signals)
    (signals : List Signals) (p : Pending)
    → Distinct (projects_of signals)
    → Memᴰ s signals
    → lookup s.project (decide_all lib rules names signals p).out
      ≡ own (decide lib rules names s) (lookup s.project p.out)
unfolding decide_all
own-decide_all lib rules names s [] p d m = absurd (Memᴰ.not-nil m)
own-decide_all lib rules names s (t ∷ signals) p d m =
    let next = take_decision lib t.project (decide lib rules names t) p in
    elim (Memᴰ.cases_cons m) [
      | inl e ↦ rw e (
          lookup-decide_all lib rules names t.project signals next (Distinct-head d)
          ∙ own-take_decision lib t.project (decide lib rules names t) p)
      | inr k ↦
          own-decide_all lib rules names s signals next (Distinct-tail d) k
          ∙ ap (own (decide lib rules names s)) (
              lookup-take_decision lib t.project s.project (decide lib rules names t) p
                (λ e. Distinct-head d (rw e (map-Memᴰ (λ (x : Signals). x.project) s signals k))))
    ]
