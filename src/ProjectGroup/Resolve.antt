-- ===== src/ProjectGroup/Resolve.antt =====
-- `Resolve` of backend/internal/projectgroup/projectgroup.go. The maps are association lists: the
-- families are visited in the order of their first members, Go's order is random.
use bomhort.Base.{
  codes, Text, Bool, ◌&&◌, ◌||◌, not, Option, some, none, List, [], ◌∷◌, map, keep, ◌==◌, is_empty,
  contains, trim_space, if◌then◌else◌, text_le, sort, insert, append_at, cut_before, is_some,
}
use bomhort.ProjectGroup.{
  Library, Signals, Assignment, lower, source_config, source_explicit, source_tag,
}
use bomhort.ProjectGroup.Owner.{owner_key}
use bomhort.ProjectGroup.Rules.{Rules, Group, match_rules}

-- A project that waits for the automatic grouping by owner.
pub record Candidate : Type 0 where
  pub project : Text
  pub owner : Text
  pub source : Text

abbrev pub Families : Type 0
Families = List (Text × List Candidate)

abbrev pub Assignments : Type 0
Assignments = List (Text × Assignment)

abbrev pub first_of : List Text → Text
first_of [] = []
first_of (h ∷ hits) = h

-- The alphabetically first tag that is the name of another project, or the empty text.
unfoldable pub tag_parent : Signals → List Text → Text
tag_parent s names = first_of (sort (keep (λ t. not (t == s.project) && contains names t) s.tags))

-- What the loop over the signals makes of one project.
pub data Decision : Type 0 where
  untouched : Decision
  assigned : Assignment → Decision
  waiting : Candidate → Decision

abbrev pub by_rule : Signals → Group → Decision
by_rule s g =
    if not g.standalone && not (g.parent == s.project)
    then assigned (record { parent = g.parent; source = source_config; owner = [] })
    else untouched

abbrev pub by_signals : Signals → List Text → Text → Text → Decision
by_signals s names owner source =
    let explicit = trim_space s.explicit_parent in
    let tag = tag_parent s names in
    if not (is_empty explicit) && not (explicit == s.project)
    then assigned (record { parent = explicit; source = source_explicit; owner = [] })
    else (if not (is_empty tag)
        then assigned (record { parent = tag; source = source_tag; owner = [] })
        else (if not (is_empty owner)
            then waiting (record { project = s.project; owner = owner; source = source })
            else untouched))

unfoldable pub decide : Library → Option Rules → List Text → Signals → Decision
decide lib rules names s =
    let (owner, source) = owner_key lib s in
    elim (match_rules lib rules s owner) [
      | none ↦ by_signals s names owner source
      | some g ↦ by_rule s g
    ]

pub record Pending : Type 0 where
  pub out : Assignments
  pub families : Families

abbrev pub take_decision : Library → Text → Decision → Pending → Pending
take_decision lib project untouched p = p
take_decision lib project (assigned a) p = record p { out = insert project a p.out }
take_decision lib project (waiting c) p = record p {
  families = append_at (lower lib c.owner) c p.families;
}

unfoldable pub decide_all : Library → Option Rules → List Text → List Signals → Pending → Pending
decide_all lib rules names [] p = p
decide_all lib rules names (s ∷ signals) p =
    decide_all lib rules names signals (take_decision lib s.project (decide lib rules names s) p)

abbrev pub is_top : Candidate → Bool
is_top m = not (is_some (cut_before (codes "/") m.project))

-- a < b
abbrev pub text_before : Text → Text → Bool
text_before a b = not (text_le b a)

-- The owner as the alphabetically first member writes it.
unfoldable pub family_label : Text → Text → List Candidate → Text
family_label label first [] = label
family_label label first (m ∷ members) =
    if is_empty first || text_before m.project first
    then family_label m.owner m.project members
    else family_label label first members

abbrev pub automatic : Text → Candidate → Assignment
automatic parent m = record { parent = parent; source = m.source; owner = m.owner }

unfoldable pub join_head : Text → List Candidate → Assignments → Assignments
join_head head [] out = out
join_head head (m ∷ members) out =
    join_head head members
      (if m.project == head then out else insert m.project (automatic head m) out)

unfoldable pub join_label : Text → List Candidate → Assignments → Assignments
join_label label [] out = out
join_label label (m ∷ members) out =
    join_label label members (insert m.project (automatic label m) out)

-- By the top-level projects among the members.
abbrev pub join_by : List Candidate → List Candidate → Assignments → Assignments
join_by [] [] out = out
join_by [] (m ∷ []) out = out
join_by [] (m ∷ n ∷ members) out =
    join_label (family_label m.owner [] (m ∷ n ∷ members)) (m ∷ n ∷ members) out
join_by (top ∷ []) members out = join_head top.project members out
join_by (top ∷ other ∷ tops) members out = out

unfoldable pub join_families : Families → Assignments → Assignments
join_families [] out = out
join_families ((key, members) ∷ families) out =
    join_families families (join_by (keep is_top members) members out)

unfoldable pub resolve : Library → List Signals → Option Rules → Assignments
resolve lib signals rules =
    let p =
      decide_all lib rules (map (λ s. s.project) signals) signals
        (record { out = []; families = [] }) in
    join_families p.families p.out
