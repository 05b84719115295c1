-- ===== src/ProjectGroup/Examples.antt =====
-- Parents of concrete projects (backend/internal/projectgroup).
use bomhort.ProjectGroup.Families.{projects_of}
use bomhort.ProjectGroup.Described.{resolve-described, described}
use bomhort.ProjectGroup.Valid.{parse_rules-valid, trimmed, is_valid}
use bomhort.ProjectGroup.Rules.{refused, RulesError, accepted, parse_rules, File}
use bomhort.Base.{
  ◌++◌, Memᴰ, ==_iff, Distinct, ◌==◌, map, all, ℕ, Text, codes, List, [], ◌∷◌, Option, some, none,
  ◌≡◌, ◌≢◌, refl, rune_lower, eqb, true, false, Bool, inl, inr, lookup, ◌↔◌,
}
use mathlib.Core.List.Memᴰ
use bomhort.ProjectGroup.{Library, Signals, Assignment, source_repo_owner}
use bomhort.ProjectGroup.Glob.{glob_regexp}
use bomhort.ProjectGroup.Resolve.{decide, resolve}
use bomhort.ProjectGroup.Parents.{resolve-no_self}

-- The runes of ASCII, URLs of one host, and expressions for one text.
abbrev ascii : Library
ascii = record {
  lower_rune = rune_lower;
  quote_meta = λ s. s;
  match_string = λ re s. re == codes "(?i)^" ++ s ++ codes "$";
  parse_url = λ url. some (codes "github.com", url);
  path_unescape = λ s. some s;
  query_value = λ query key. none;
}

abbrev of_repo : Text → Text → Signals
of_repo project repo = record {
  project = project;
  explicit_parent = [];
  tags = [];
  source_repo = repo;
  document_name = [];
  root_purl = [];
  supplier = [];
}

abbrev argo : List Signals
argo =
    of_repo (codes "argo") (codes "argoproj/argo-cd")
    ∷ of_repo (codes "argo-cd/rollouts") (codes "Argoproj/argo-rollouts")
    ∷ []

abbrev rollouts : Assignment
rollouts = record { parent = codes "argo"; source = source_repo_owner; owner = codes "Argoproj" }

rollouts_of_argo : lookup (codes "argo-cd/rollouts") (resolve ascii argo none) ≡ some rollouts
unfolding resolve bomhort.Base.lookup bomhort.Base.alter bomhort.Base.append_at bomhort.Base.insert
    bomhort.Base.insert_sorted bomhort.Base.text_le bomhort.Base.sort bomhort.Base.split_on
    bomhort.Base.extend_first bomhort.Base.join_with bomhort.Base.contains bomhort.Base.cut_before
    bomhort.Base.has_prefix bomhort.Base.has_suffix bomhort.Base.is_space bomhort.Base.trim_left
    bomhort.Base.trim_space bomhort.Base.◌==◌ bomhort.Base.rune_lower
    bomhort.ProjectGroup.Resolve.join_families bomhort.ProjectGroup.Resolve.decide_all
    bomhort.ProjectGroup.Resolve.decide bomhort.ProjectGroup.Resolve.tag_parent
    bomhort.ProjectGroup.Resolve.family_label bomhort.ProjectGroup.Resolve.join_head
    bomhort.ProjectGroup.Resolve.join_label bomhort.ProjectGroup.Owner.owner_key
    bomhort.ProjectGroup.Owner.owner_from_repo bomhort.ProjectGroup.Owner.repo_owner
    bomhort.ProjectGroup.Owner.split_segments bomhort.ProjectGroup.Owner.owner_from_document_name
    bomhort.ProjectGroup.Owner.owner_from_purl bomhort.ProjectGroup.Owner.cut_at
    bomhort.ProjectGroup.Owner.trim_left_slashes bomhort.ProjectGroup.Owner.purl_namespace
    bomhort.ProjectGroup.Rules.match_rules
rollouts_of_argo = refl

argo_alone : lookup (codes "argo") (resolve ascii argo none) ≡ none
unfolding resolve bomhort.Base.lookup bomhort.Base.alter bomhort.Base.append_at bomhort.Base.insert
    bomhort.Base.insert_sorted bomhort.Base.text_le bomhort.Base.sort bomhort.Base.split_on
    bomhort.Base.extend_first bomhort.Base.join_with bomhort.Base.contains bomhort.Base.cut_before
    bomhort.Base.has_prefix bomhort.Base.has_suffix bomhort.Base.is_space bomhort.Base.trim_left
    bomhort.Base.trim_space bomhort.Base.◌==◌ bomhort.Base.rune_lower
    bomhort.ProjectGroup.Resolve.join_families bomhort.ProjectGroup.Resolve.decide_all
    bomhort.ProjectGroup.Resolve.decide bomhort.ProjectGroup.Resolve.tag_parent
    bomhort.ProjectGroup.Resolve.family_label bomhort.ProjectGroup.Resolve.join_head
    bomhort.ProjectGroup.Resolve.join_label bomhort.ProjectGroup.Owner.owner_key
    bomhort.ProjectGroup.Owner.owner_from_repo bomhort.ProjectGroup.Owner.repo_owner
    bomhort.ProjectGroup.Owner.split_segments bomhort.ProjectGroup.Owner.owner_from_document_name
    bomhort.ProjectGroup.Owner.owner_from_purl bomhort.ProjectGroup.Owner.cut_at
    bomhort.ProjectGroup.Owner.trim_left_slashes bomhort.ProjectGroup.Owner.purl_namespace
    bomhort.ProjectGroup.Rules.match_rules
argo_alone = refl

-- No member is a top-level project, and one is called like the owner: it becomes its own parent.
abbrev payments : List Signals
payments =
    of_repo (codes "payments/core") (codes "payments/core/api")
    ∷ of_repo (codes "payments/web") (codes "payments/core/web")
    ∷ []

payments_core :
    lookup (codes "payments/core") (resolve ascii payments none)
    ≡ some (record {
      parent = codes "payments/core";
      source = source_repo_owner;
      owner = codes "payments/core";
    })
unfolding resolve bomhort.Base.lookup bomhort.Base.alter bomhort.Base.append_at bomhort.Base.insert
    bomhort.Base.insert_sorted bomhort.Base.text_le bomhort.Base.sort bomhort.Base.split_on
    bomhort.Base.extend_first bomhort.Base.join_with bomhort.Base.contains bomhort.Base.cut_before
    bomhort.Base.has_prefix bomhort.Base.has_suffix bomhort.Base.is_space bomhort.Base.trim_left
    bomhort.Base.trim_space bomhort.Base.◌==◌ bomhort.Base.rune_lower
    bomhort.ProjectGroup.Resolve.join_families bomhort.ProjectGroup.Resolve.decide_all
    bomhort.ProjectGroup.Resolve.decide bomhort.ProjectGroup.Resolve.tag_parent
    bomhort.ProjectGroup.Resolve.family_label bomhort.ProjectGroup.Resolve.join_head
    bomhort.ProjectGroup.Resolve.join_label bomhort.ProjectGroup.Owner.owner_key
    bomhort.ProjectGroup.Owner.owner_from_repo bomhort.ProjectGroup.Owner.repo_owner
    bomhort.ProjectGroup.Owner.split_segments bomhort.ProjectGroup.Owner.owner_from_document_name
    bomhort.ProjectGroup.Owner.owner_from_purl bomhort.ProjectGroup.Owner.cut_at
    bomhort.ProjectGroup.Owner.trim_left_slashes bomhort.ProjectGroup.Owner.purl_namespace
    bomhort.ProjectGroup.Rules.match_rules
payments_core = refl

abbrev tagged : List Signals
tagged =
    record (of_repo (codes "ui/web") []) { tags = codes "ui/web" ∷ codes "argo" ∷ [] }
    ∷ of_repo (codes "argo") (codes "argoproj/argo-cd")
    ∷ []

resolve-no_self_example : codes "argo" ≢ codes "ui/web"
unfolding resolve bomhort.Base.lookup bomhort.Base.alter bomhort.Base.append_at bomhort.Base.insert
    bomhort.Base.insert_sorted bomhort.Base.text_le bomhort.Base.sort bomhort.Base.split_on
    bomhort.Base.extend_first bomhort.Base.join_with bomhort.Base.contains bomhort.Base.cut_before
    bomhort.Base.has_prefix bomhort.Base.has_suffix bomhort.Base.is_space bomhort.Base.trim_left
    bomhort.Base.trim_space bomhort.Base.◌==◌ bomhort.Base.rune_lower
    bomhort.ProjectGroup.Resolve.join_families bomhort.ProjectGroup.Resolve.decide_all
    bomhort.ProjectGroup.Resolve.decide bomhort.ProjectGroup.Resolve.tag_parent
    bomhort.ProjectGroup.Resolve.family_label bomhort.ProjectGroup.Resolve.join_head
    bomhort.ProjectGroup.Resolve.join_label bomhort.ProjectGroup.Owner.owner_key
    bomhort.ProjectGroup.Owner.owner_from_repo bomhort.ProjectGroup.Owner.repo_owner
    bomhort.ProjectGroup.Owner.split_segments bomhort.ProjectGroup.Owner.owner_from_document_name
    bomhort.ProjectGroup.Owner.owner_from_purl bomhort.ProjectGroup.Owner.cut_at
    bomhort.ProjectGroup.Owner.trim_left_slashes bomhort.ProjectGroup.Owner.purl_namespace
    bomhort.ProjectGroup.Rules.match_rules
resolve-no_self_example =
    resolve-no_self ascii tagged none (codes "ui/web")
      (record { parent = codes "argo"; source = codes "tag"; owner = [] }) refl (inr refl)

argo_regexp : glob_regexp ascii (codes " argo-c?/*") ≡ codes "(?i)^argo-c./.*$"
unfolding bomhort.ProjectGroup.Glob.glob_parts bomhort.Base.trim_space bomhort.Base.trim_left
    bomhort.Base.is_space
argo_regexp = refl

abbrev mapping : File
mapping = record {
  version = codes "1.0.0";
  groups =
      record {
        parent = codes " argo ";
        standalone = true;
        match_on = record {
          projects = codes "argo-cd/*" ∷ [];
          repos = [];
          owners = [];
          suppliers = [];
        };
        reason = [];
      }
      ∷ [];
}

parse_rules-valid_example :
    (all is_valid mapping.groups ≡ true
      → parse_rules ascii (some mapping) ≡ accepted (map (trimmed ascii) mapping.groups))
    × (all is_valid mapping.groups ≡ false
        → (e : RulesError) × (parse_rules ascii (some mapping) ≡ refused e))
parse_rules-valid_example = parse_rules-valid ascii mapping

argo-Distinct : Distinct (projects_of argo)
unfolding ◌==◌
argo-Distinct =
    Distinct.cons (λ m. differ (Memᴰ.eq_of_singleton m)) (Distinct.cons Memᴰ.not-nil Distinct.nil)
  where
    differ : codes "argo" ≢ codes "argo-cd/rollouts"
    differ e =
        let k : (codes "argo" == codes "argo-cd/rollouts") ≡ true = (==_iff _ _).1 e in
        let clash : false ≡ true = k in cc

rollouts_listed : Memᴰ (of_repo (codes "argo-cd/rollouts") (codes "Argoproj/argo-rollouts")) (
    of_repo (codes "argo") (codes "argoproj/argo-cd")
    ∷ of_repo (codes "argo-cd/rollouts") (codes "Argoproj/argo-rollouts")
    ∷ [])
rollouts_listed = Memᴰ.tail (Memᴰ.head refl)

resolve-described_example :
    lookup (codes "argo-cd/rollouts") (resolve ascii argo none)
    ≡ described ascii none argo (
        decide ascii none
          (projects_of argo)
          (of_repo (codes "argo-cd/rollouts") (codes "Argoproj/argo-rollouts")))
resolve-described_example =
    resolve-described ascii argo none
      (of_repo (codes "argo-cd/rollouts") (codes "Argoproj/argo-rollouts")) argo-Distinct
      rollouts_listed
