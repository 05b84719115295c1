-- ===== src/ProjectGroup/Rules.antt =====
-- The mapping file (backend/internal/projectgroup/rules.go). A set of lowercased values is a list. Errors
-- carry their kind and the position of the group, not their message. A compiled pattern is the text of
-- its regular expression.
use bomhort.Base.{
  ℕ, suc, Text, Bool, ◌&&◌, ◌||◌, not, Option, some, none, List, [], ◌∷◌, map, keep, length, ◌+◌,
  is_empty, contains, trim_space, any, eqb, if◌then◌else◌,
}
use bomhort.ProjectGroup.{Library, Signals, lower}
use bomhort.ProjectGroup.Glob.{glob_regexp}

pub record Match : Type 0 where
  pub projects : List Text
  pub repos : List Text
  pub owners : List Text
  pub suppliers : List Text

pub record Group : Type 0 where
  pub parent : Text
  pub standalone : Bool
  pub match_on : Match
  pub reason : Text

pub record File : Type 0 where
  pub version : Text
  pub groups : List Group

pub record CompiledGroup : Type 0 where
  pub group : Group
  pub projects : List Text
  pub repos : List Text
  pub owners : List Text
  pub suppliers : List Text

abbrev pub Rules : Type 0
Rules = List CompiledGroup

pub data RulesError : Type 0 where
  invalid_json unreadable : RulesError
  no_parent parent_and_standalone empty_match : ℕ → RulesError

pub data Parsed : Type 0 where
  refused : RulesError → Parsed
  accepted : Rules → Parsed

unfoldable pub lower_set : Library → List Text → List Text
lower_set lib vals = keep (λ v. not (is_empty v)) (map (λ v. lower lib (trim_space v)) vals)

abbrev pub compile_group : Library → Group → CompiledGroup
compile_group lib g = record {
  group = g;
  projects = map (glob_regexp lib) g.match_on.projects;
  repos = map (glob_regexp lib) g.match_on.repos;
  owners = lower_set lib g.match_on.owners;
  suppliers = lower_set lib g.match_on.suppliers;
}

abbrev pub add_group : CompiledGroup → Parsed → Parsed
add_group g (refused e) = refused e
add_group g (accepted gs) = accepted (g ∷ gs)

abbrev pub match_size : Match → ℕ
match_size m = length m.projects + length m.repos + length m.owners + length m.suppliers

-- The loop over the groups, from position `i` on. An error ends it, so that the first one counts.
unfoldable pub compile_groups : Library → ℕ → List Group → Parsed
compile_groups lib i [] = accepted []
compile_groups lib i (g ∷ gs) =
    let rest = compile_groups lib (suc i) gs in
    let parent = trim_space g.parent in
    if is_empty parent && not g.standalone
    then refused (no_parent i)
    else (if not (is_empty parent) && g.standalone
        then refused (parent_and_standalone i)
        else (if eqb (match_size g.match_on) 0
            then refused (empty_match i)
            else add_group (compile_group lib (record g { parent = parent })) rest))

-- `ParseRules` on what the JSON decoder makes of the file.
unfoldable pub parse_rules : Library → Option File → Parsed
parse_rules lib none = refused invalid_json
parse_rules lib (some file) = compile_groups lib 0 file.groups

-- What reading a file gives.
pub data ReadFile : Type 0 where
  missing broken : ReadFile
  content : Text → ReadFile

pub data LoadedRules : Type 0 where
  no_rules : LoadedRules
  load_error : RulesError → LoadedRules
  rules_of : Rules → LoadedRules

abbrev pub loaded : Parsed → LoadedRules
loaded (refused e) = load_error e
loaded (accepted rules) = rules_of rules

abbrev pub load_content : Library → (Text → Option File) → ReadFile → LoadedRules
load_content lib decode missing = no_rules
load_content lib decode broken = load_error unreadable
load_content lib decode (content data_) = loaded (parse_rules lib (decode data_))

unfoldable pub load_rules : Library → (Text → ReadFile) → (Text → Option File) → Text → LoadedRules
load_rules lib read decode path =
    if is_empty (trim_space path) then no_rules else load_content lib decode (read path)

-- `Len`, of no rules as well
abbrev pub rules_len : Option Rules → ℕ
rules_len none = 0
rules_len (some rules) = length rules

abbrev pub any_match : Library → List Text → Text → Bool
any_match lib res s = not (is_empty s) && any (λ re. lib.match_string re s) res

-- The group matches a project with these signals, by the owner and the supplier in lower case.
abbrev pub group_applies : Library → Signals → Text → Text → CompiledGroup → Bool
group_applies lib s owner supplier g =
    any_match lib g.projects s.project
    || any_match lib g.repos s.source_repo
    || (not (is_empty owner) && contains g.owners owner)
    || (not (is_empty supplier) && contains g.suppliers supplier)

unfoldable pub first_group : Library → Signals → Text → Text → Rules → Option Group
first_group lib s owner supplier [] = none
first_group lib s owner supplier (g ∷ gs) =
    if group_applies lib s owner supplier g
    then some g.group
    else first_group lib s owner supplier gs

unfoldable pub match_rules : Library → Option Rules → Signals → Text → Option Group
match_rules lib none s owner = none
match_rules lib (some rules) s owner =
    first_group lib s (lower lib owner) (lower lib (trim_space s.supplier)) rules
