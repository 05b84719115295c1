-- ===== src/ProjectGroup.antt =====
-- Parents of projects (backend/internal/projectgroup/projectgroup.go): the data that the extraction of
-- owners (owner.go), the mapping file (rules.go) and the resolution share.
pub mod Owner
pub mod Glob
pub mod Rules
pub mod Resolve
pub mod Families
pub mod Joined
pub mod Waiting
pub mod Described
pub mod Parents
pub mod Valid
pub mod Examples
use bomhort.Base.{Bool, ℕ, Text, codes, Option, List, map}

abbrev pub source_config : Text
source_config = codes "config"

abbrev pub source_explicit : Text
source_explicit = codes "explicit"

abbrev pub source_tag : Text
source_tag = codes "tag"

abbrev pub source_repo_owner : Text
source_repo_owner = codes "repo"

abbrev pub source_document : Text
source_document = codes "document"

abbrev pub source_purl : Text
source_purl = codes "purl"

abbrev pub source_supplier : Text
source_supplier = codes "supplier"

pub record Signals : Type 0 where
  pub project : Text
  pub explicit_parent : Text
  pub tags : List Text
  pub source_repo : Text
  pub document_name : Text
  pub root_purl : Text
  pub supplier : Text

-- What an assignment says of a project: its parent, the signal that it comes from, and the
-- owner behind that signal.
pub record Assignment : Type 0 where
  pub parent : Text
  pub source : Text
  pub owner : Text

-- What the Go library computes: `unicode.ToLower`; `regexp.QuoteMeta`; whether the regular
-- expression that `regexp.MustCompile` makes of the first text matches the second; the host and the path of a URL, if `url.Parse` accepts it; `url.PathUnescape`, if there is no error; the
-- first value of a key in a query, if `url.ParseQuery` accepts it.
pub record Library : Type 0 where
  pub lower_rune : ℕ → ℕ
  pub quote_meta : Text → Text
  pub match_string : Text → Text → Bool
  pub parse_url : Text → Option (Text × Text)
  pub path_unescape : Text → Option Text
  pub query_value : Text → Text → Option Text

-- strings.ToLower
abbrev pub lower : Library → Text → Text
lower lib s = map lib.lower_rune s
