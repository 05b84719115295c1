-- ===== src/ProjectGroup/Waiting.antt =====
-- Which projects `Resolve` of backend/internal/projectgroup/projectgroup.go leaves to their families.
use mathlib.Core.List.Memᴰ
use mathlib.Core.List.{Permᴰ}
use mathlib.Core.List.Permᴰ
use bomhort.Base.{
  Distinct-left, ==_refl, Text, ◌&&◌, not, is_empty, trim_space, Option, some, none, List, [], ◌∷◌,
  ◌++◌, ◌==◌, ==_iff, lookup, alter, append_at, slice_at, append_assoc, Distinct, Distinct-tail,
  Permᴰ-Distinct, Permᴰ-Memᴰ, Memᴰ, ◌≡◌, ◌⊎◌, inl, inr, refl, sym, ap, ◌∙◌, Bool-cases,
}
use bomhort.ProjectGroup.{Library, Signals, Assignment, lower}
use bomhort.ProjectGroup.Owner.{owner_key}
use bomhort.ProjectGroup.Rules.{Rules, Group, match_rules}
use bomhort.ProjectGroup.Resolve.{
  Candidate, Families, Decision, Pending, untouched, assigned, waiting, by_rule, by_signals, decide,
  take_decision, decide_all, tag_parent,
}
use bomhort.ProjectGroup.Families.{names_of, grouped, projects_of, members_of, waits_for}

-- A candidate is its project's.
pub data IsNamed (p : Text) : Decision → Type 0 where
  idle : IsNamed p untouched
  given : {a : Assignment} → IsNamed p (assigned a)
  queued : {m : Candidate} → m.project ≡ p → IsNamed p (waiting m)

pub decide-IsNamed :
    (lib : Library) (rules : Option Rules) (names : List Text) (s : Signals)
    → IsNamed s.project (decide lib rules names s)
unfolding decide
decide-IsNamed lib rules names s = go (match_rules lib rules s (owner_key lib s).0)
  where
    signals_named : (owner source : Text) → IsNamed s.project (by_signals s names owner source)
    signals_named owner source =
        elim (Bool-cases (
          not (is_empty (trim_space s.explicit_parent))
          && not (trim_space s.explicit_parent == s.project))) [
            | inl k ↦ rw k given
            | inr k ↦ elim (Bool-cases (is_empty (tag_parent s names))) [
              | inl e ↦ elim (Bool-cases (is_empty owner)) [
                | inl o ↦ rw (k, e, o) idle
                | inr o ↦ rw (k, e, o) (queued refl)
              ]
              | inr e ↦ rw (k, e) given
            ]
          ]

    rule_named : (g : Group) → IsNamed s.project (by_rule s g)
    rule_named g = elim (Bool-cases (not g.standalone && not (g.parent == s.project))) [
      | inl k ↦ rw k given
      | inr k ↦ rw k idle
    ]

    go :
        (o : Option Group)
        → IsNamed s.project (elim o as (λ _. Decision) [
          | none ↦ by_signals s names (owner_key lib s).0 (owner_key lib s).1
          | some g ↦ by_rule s g
        ])
    go none = signals_named (owner_key lib s).0 (owner_key lib s).1
    go (some g) = rule_named g

grouped-append_at :
    (key : Text) (c : Candidate) (fs : Families)
    → Permᴰ (grouped (append_at key c fs)) (c.project ∷ grouped fs)
unfolding append_at alter
grouped-append_at key c [] = Permᴰ.refl (c.project ∷ [])
grouped-append_at key c ((other, ms) ∷ fs) = elim (Bool-cases (other == key)) [
  | inl e ↦
      rw (e, names_of-snoc ms c, append_assoc (names_of ms) (c.project ∷ []) (grouped fs))
        (Permᴰ.middle c.project (names_of ms) (grouped fs))
  | inr e ↦ rw e (
      Permᴰ.trans (Permᴰ.append_left (names_of ms) (grouped-append_at key c fs))
        (Permᴰ.middle c.project (names_of ms) (grouped fs)))
]
  where
    names_of-snoc :
        (ms : List Candidate) (c : Candidate)
        → names_of (ms ++ c ∷ []) ≡ names_of ms ++ c.project ∷ []
    names_of-snoc [] c = refl
    names_of-snoc (m ∷ ms) c = ap (λ ns. m.project ∷ ns) (names_of-snoc ms c)

-- The projects in families and the projects still to come, after one decision.
grouped-take_decision :
    (lib : Library) (project : Text) (d : Decision) (p : Pending) (rest : List Text)
    → IsNamed project d
    → Distinct (grouped p.families ++ project ∷ rest)
    → Distinct (grouped (take_decision lib project d p).families ++ rest)
grouped-take_decision lib project untouched p rest idle d =
    Distinct-tail (Permᴰ-Distinct (Permᴰ.middle project (grouped p.families) rest) d)
grouped-take_decision lib project (assigned a) p rest given d =
    Distinct-tail (Permᴰ-Distinct (Permᴰ.middle project (grouped p.families) rest) d)
grouped-take_decision lib project (waiting c) p rest (queued e) d =
    let moved = Permᴰ-Distinct (Permᴰ.middle project (grouped p.families) rest) d in
    let named : Distinct (c.project ∷ grouped p.families ++ rest) = rw e moved in
    Permᴰ-Distinct
      (Permᴰ.symm (Permᴰ.append_right rest (grouped-append_at (lower lib c.owner) c p.families)))
      named

pub grouped-decide_all :
    (lib : Library) (rules : Option Rules) (names : List Text) (signals : List Signals)
    (p : Pending)
    → Distinct (grouped p.families ++ projects_of signals)
    → Distinct (grouped (decide_all lib rules names signals p).families)
unfolding decide_all
grouped-decide_all lib rules names [] p d = Distinct-left (grouped p.families) [] d
grouped-decide_all lib rules names (s ∷ signals) p d =
    grouped-decide_all lib rules names signals
      (take_decision lib s.project (decide lib rules names s) p)
      (grouped-take_decision lib s.project (decide lib rules names s) p (projects_of signals)
        (decide-IsNamed lib rules names s) d)

-- A project in a family waits for it.
abbrev pub Waits : Library → Option Rules → List Text → List Signals → Text → Type 0
Waits lib rules names signals q =
    (s : Signals) × Memᴰ s signals
    × (q ≡ s.project)
    × ((c : Candidate) × (decide lib rules names s ≡ waiting c))

pub grouped-Waits :
    (lib : Library) (rules : Option Rules) (names : List Text) (q : Text) (signals : List Signals)
    (p : Pending)
    → Memᴰ q (grouped (decide_all lib rules names signals p).families)
    → Memᴰ q (grouped p.families) ⊎ Waits lib rules names signals q
unfolding decide_all
grouped-Waits lib rules names q [] p m = inl m
grouped-Waits lib rules names q (s ∷ signals) p m =
    elim (grouped-Waits lib rules names q signals
      (take_decision lib s.project (decide lib rules names s) p) m) [
        | inl k ↦ added (decide lib rules names s) refl (decide-IsNamed lib rules names s) k
        | inr (t, k, e, w) ↦ inr (t, Memᴰ.tail k, e, w)
      ]
  where
    added :
        (d : Decision)
        → decide lib rules names s ≡ d
        → IsNamed s.project d
        → Memᴰ q (grouped (take_decision lib s.project d p).families)
        → Memᴰ q (grouped p.families) ⊎ Waits lib rules names (s ∷ signals) q
    added untouched e idle k = inl k
    added (assigned a) e given k = inl k
    added (waiting c) e (queued same) k =
        elim (Memᴰ.cases_cons (Permᴰ-Memᴰ (grouped-append_at (lower lib c.owner) c p.families) k)) [
          | inl here ↦ inr (s, Memᴰ.head refl, here ∙ same, (c, e))
          | inr old ↦ inl old
        ]

pub members_of-Memᴰ :
    (lib : Library) (rules : Option Rules) (names : List Text) (s : Signals) (c : Candidate)
    (signals : List Signals)
    → decide lib rules names s ≡ waiting c
    → Memᴰ s signals
    → Memᴰ c (members_of lib rules names (lower lib c.owner) signals)
unfolding members_of
members_of-Memᴰ lib rules names s c [] e m = absurd (Memᴰ.not-nil m)
members_of-Memᴰ lib rules names s c (t ∷ signals) e m =
    let key = lower lib c.owner in
    elim (Memᴰ.cases_cons m) [
      | inl same ↦
          let now : decide lib rules names t ≡ waiting c =
            ap (decide lib rules names) (sym same) ∙ e in
          Memᴰ.append_left (members_of lib rules names key signals)
            (rw now (rw (==_refl key) (Memᴰ.head refl)))
      | inr k ↦
          Memᴰ.append_right (waits_for lib key (decide lib rules names t))
            (members_of-Memᴰ lib rules names s c signals e k)
    ]

-- A slice that holds something is an entry's.
pub slice_at-Memᴰ :
    (key : Text) (c : Candidate) (fs : Families)
    → Memᴰ c (slice_at key fs)
    → Memᴰ (key, slice_at key fs) fs
unfolding slice_at lookup
slice_at-Memᴰ key c [] m = absurd (Memᴰ.not-nil m)
slice_at-Memᴰ key c (entry ∷ fs) m = elim (Bool-cases (entry.0 == key)) [
  | inl e ↦ let same = (==_iff entry.0 key).0 e in rw e (Memᴰ.head (λ i. (sym same i, entry.1)))
  | inr e ↦ rw e (Memᴰ.tail (slice_at-Memᴰ key c fs (rw e at m)))
]
