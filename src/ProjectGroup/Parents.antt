-- ===== src/ProjectGroup/Parents.antt =====
-- A project and the parent that it is given (backend/internal/projectgroup/projectgroup.go).
use mathlib.Core.List.Memᴰ
use mathlib.Core.List.{Permᴰ}
use bomhort.Base.{
  keep-Memᴰ, Memᴰ, Permᴰ-Memᴰ, subst, ◌∙◌, ◌∙◌, codes, Text, Bool, true, false, ◌&&◌, not, Option,
  some, none, List, [], ◌∷◌, map, keep, ◌==◌, ==_iff, is_empty, contains, trim_space, sort,
  sort-perm, insert, lookup-insert, append_at-HoldsIn, HoldsIn, cut_before, is_some, lookup, ◌≡◌,
  ◌≢◌, ◌⊎◌, inl, inr, refl, sym, arith, Bool-cases, Memᴰ-keep,
}
use bomhort.ProjectGroup.{Library, Signals, Assignment, lower}
use bomhort.ProjectGroup.Owner.{owner_key}
use bomhort.ProjectGroup.Rules.{Rules, Group, match_rules}
use bomhort.ProjectGroup.Resolve.{
  Candidate, Families, Assignments, Decision, Pending, untouched, assigned, waiting, first_of,
  tag_parent, by_rule, by_signals, decide, take_decision, decide_all, is_top, join_head, join_label,
  join_by, join_families, automatic, family_label, resolve,
}

abbrev pub has_slash : Text → Bool
has_slash p = is_some (cut_before (codes "/") p)

-- The parent of a project is another project, unless the owner gave it and the project's name has a slash.
pub IsFair : Text → Assignment → Type 0
IsFair p a = (has_slash p ≡ false) ⊎ (is_empty a.owner ≡ true) → a.parent ≢ p

AllFair : Assignments → Type 0
AllFair out = (p : Text) (a : Assignment) → lookup p out ≡ some a → IsFair p a

some_inj : (a b : Assignment) → some a ≡ some b → a ≡ b
some_inj a b h = cc

insert-AllFair :
    (key : Text) (a : Assignment) (out : Assignments)
    → IsFair key a
    → AllFair out
    → AllFair (insert key a out)
unfolding AllFair
insert-AllFair key a out f h p b e = elim (Bool-cases (key == p)) [
  | inl k ↦
      let same : key ≡ p = (==_iff key p).0 k in
      let new = some_inj a b (sym (lookup-insert key p a out ∙ rw k refl) ∙ e) in
      subst (IsFair p) new (subst (λ q. IsFair q a) same f)
  | inr k ↦ h p b (sym (lookup-insert key p a out ∙ rw k refl) ∙ e)
]

Owned : Candidate → Type 0
Owned m = is_empty m.owner ≡ false

-- A decision that keeps the assignments fair.
data IsSound (p : Text) : Decision → Type 0 where
  idle : IsSound p untouched
  given : {a : Assignment} → a.parent ≢ p → IsSound p (assigned a)
  queued : {m : Candidate} → Owned m → IsSound p (waiting m)

differs : (a b : Text) → not (a == b) ≡ true → a ≢ b
differs a b h e = let k = (==_iff a b).1 e in let clash : false ≡ true = rw k at h in cc

first_of-sort :
    (p : Text → Bool) (ts : List Text)
    → is_empty (first_of (sort (keep p ts))) ≡ false
    → p (first_of (sort (keep p ts))) ≡ true
first_of-sort p ts h = go (sort (keep p ts)) (sort-perm (keep p ts)) h
  where
    go :
        (hits : List Text)
        → Permᴰ hits (keep p ts)
        → is_empty (first_of hits) ≡ false
        → p (first_of hits) ≡ true
    go [] q h = cc
    go (t ∷ hits) q h = (Memᴰ-keep p t ts (Permᴰ-Memᴰ q (Memᴰ.head refl))).1

tag_parent-other :
    (s : Signals) (names : List Text)
    → is_empty (tag_parent s names) ≡ false
    → tag_parent s names ≢ s.project
unfolding tag_parent
tag_parent-other s names h =
    let test = first_of-sort (λ t. not (t == s.project) && contains names t) s.tags h in
    differs (tag_parent s names) s.project (ground arith)

by_rule-IsSound : (s : Signals) (g : Group) → IsSound s.project (by_rule s g)
by_rule-IsSound s g = elim (Bool-cases (not g.standalone && not (g.parent == s.project))) [
  | inl k ↦ rw k (given (differs g.parent s.project (ground arith)))
  | inr k ↦ rw k idle
]

by_signals-IsSound :
    (s : Signals) (names : List Text) (owner source : Text)
    → IsSound s.project (by_signals s names owner source)
unfolding Owned
by_signals-IsSound s names owner source =
    let explicit = trim_space s.explicit_parent in
    let tag = tag_parent s names in
    elim (Bool-cases (not (is_empty explicit) && not (explicit == s.project))) [
      | inl k ↦ rw k (given (differs explicit s.project (ground arith)))
      | inr k ↦ elim (Bool-cases (is_empty tag)) [
        | inl e ↦ elim (Bool-cases (is_empty owner)) [
          | inl o ↦ rw (k, e, o) idle
          | inr o ↦ rw (k, e, o) (queued o)
        ]
        | inr e ↦ rw (k, e) (given (tag_parent-other s names e))
      ]
    ]

decide-IsSound :
    (lib : Library) (rules : Option Rules) (names : List Text) (s : Signals)
    → IsSound s.project (decide lib rules names s)
unfolding decide
decide-IsSound lib rules names s = go (match_rules lib rules s (owner_key lib s).0)
  where
    go :
        (o : Option Group)
        → IsSound s.project (elim o as (λ _. Decision) [
          | none ↦ by_signals s names (owner_key lib s).0 (owner_key lib s).1
          | some g ↦ by_rule s g
        ])
    go none = by_signals-IsSound s names (owner_key lib s).0 (owner_key lib s).1
    go (some g) = by_rule-IsSound s g

-- Fair assignments, and families whose members have an owner.
record IsReady (p : Pending) : Type 0 where
  fair : AllFair p.out
  owned : HoldsIn Owned p.families

take_decision-IsReady :
    (lib : Library) (project : Text) (d : Decision) (p : Pending)
    → IsSound project d
    → IsReady p
    → IsReady (take_decision lib project d p)
unfolding IsFair
take_decision-IsReady lib project untouched p idle r = r
take_decision-IsReady lib project (assigned a) p (given h) r = record {
  fair = insert-AllFair project a p.out (λ _. h) r.fair;
  owned = r.owned;
}
take_decision-IsReady lib project (waiting c) p (queued o) r = record {
  fair = r.fair;
  owned = append_at-HoldsIn Owned (lower lib c.owner) c p.families o r.owned;
}

decide_all-IsReady :
    (lib : Library) (rules : Option Rules) (names : List Text) (signals : List Signals)
    (p : Pending)
    → IsReady p
    → IsReady (decide_all lib rules names signals p)
unfolding decide_all
decide_all-IsReady lib rules names [] p r = r
decide_all-IsReady lib rules names (s ∷ signals) p r =
    decide_all-IsReady lib rules names signals
      (take_decision lib s.project (decide lib rules names s) p)
      (take_decision-IsReady lib s.project (decide lib rules names s) p
        (decide-IsSound lib rules names s) r)

join_head-AllFair :
    (head : Text) (members : List Candidate) (out : Assignments)
    → AllFair out
    → AllFair (join_head head members out)
unfolding join_head IsFair
join_head-AllFair head [] out f = f
join_head-AllFair head (m ∷ members) out f = elim (Bool-cases (m.project == head)) [
  | inl k ↦ rw k (join_head-AllFair head members out f)
  | inr k ↦ rw k (
      join_head-AllFair head members (insert m.project (automatic head m) out) (
        insert-AllFair m.project (automatic head m) out
          (λ _ e.
            let same = (==_iff m.project head).1 (sym e) in
            let clash : true ≡ false = sym same ∙ k in cc)
          f))
]

join_label-AllFair :
    (label : Text) (members : List Candidate) (out : Assignments)
    → ((m : Candidate) → Memᴰ m members → Owned m × (has_slash m.project ≡ true))
    → AllFair out
    → AllFair (join_label label members out)
unfolding join_label Owned IsFair
join_label-AllFair label [] out h f = f
join_label-AllFair label (m ∷ members) out h f =
    join_label-AllFair label members (insert m.project (automatic label m) out)
      (λ n k. h n (Memᴰ.tail k))
      (insert-AllFair m.project (automatic label m) out
        (λ o _. let (owned, slash) = h m (Memᴰ.head refl) in grouped owned slash o) f)
  where
    grouped :
        Owned m
        → has_slash m.project ≡ true
        → ¬ ((has_slash m.project ≡ false) ⊎ (is_empty m.owner ≡ true))
    grouped owned slash (inl e) = let clash : true ≡ false = sym slash ∙ e in cc
    grouped owned slash (inr e) = let clash : false ≡ true = sym owned ∙ e in cc

-- Without a top-level member, every member has a slash in its name.
no_tops :
    (members : List Candidate)
    → keep is_top members ≡ []
    → (m : Candidate) → Memᴰ m members
    → has_slash m.project ≡ true
no_tops members h m k = elim (Bool-cases (has_slash m.project)) [
  | inl e ↦ e
  | inr e ↦
      let top = keep-Memᴰ is_top m members k (rw e refl) in
      absurd (Memᴰ.not-nil (subst (Memᴰ m) h top))
]

join_by-AllFair :
    (tops members : List Candidate) (out : Assignments)
    → keep is_top members ≡ tops
    → ((m : Candidate) → Memᴰ m members → Owned m)
    → AllFair out
    → AllFair (join_by tops members out)
join_by-AllFair [] [] out e o f = f
join_by-AllFair [] (m ∷ []) out e o f = f
join_by-AllFair [] (m ∷ n ∷ members) out e o f =
    join_label-AllFair (family_label m.owner [] (m ∷ n ∷ members)) (m ∷ n ∷ members) out
      (λ c k. (o c k, no_tops (m ∷ n ∷ members) e c k)) f
join_by-AllFair (top ∷ []) members out e o f = join_head-AllFair top.project members out f
join_by-AllFair (top ∷ other ∷ tops) members out e o f = f

join_families-AllFair :
    (families : Families) (out : Assignments)
    → HoldsIn Owned families
    → AllFair out
    → AllFair (join_families families out)
unfolding join_families
join_families-AllFair [] out o f = f
join_families-AllFair ((key, members) ∷ families) out o f =
    join_families-AllFair families (join_by (keep is_top members) members out)
      (λ e m. o e (Memᴰ.tail m))
      (join_by-AllFair (keep is_top members) members out refl (o (key, members) (Memᴰ.head refl)) f)

-- The parent that `Resolve` gives a project is never the project itself, if its name has no slash or the
-- parent does not come from an owner (that is, it comes from the mapping file, the ingest or a tag).
pub resolve-no_self :
    (lib : Library) (signals : List Signals) (rules : Option Rules) (p : Text) (a : Assignment)
    → lookup p (resolve lib signals rules) ≡ some a
    → (has_slash p ≡ false) ⊎ (is_empty a.owner ≡ true)
    → a.parent ≢ p
unfolding resolve lookup AllFair IsFair
resolve-no_self lib signals rules p a h =
    let start : Pending = record { out = []; families = [] } in
    let names = map (λ (s : Signals). s.project) signals in
    let ready = decide_all-IsReady lib rules names signals start (record {
      fair = λ q b e. absurd (not_found q b e);
      owned = λ e m. absurd (Memᴰ.not-nil m);
    }) in
    join_families-AllFair (decide_all lib rules names signals start).families
      (decide_all lib rules names signals start).out ready.owned ready.fair p a h
  where
    not_found : (q : Text) (b : Assignment) → ¬ (lookup q [] ≡ some b)
    not_found q b e = cc
