-- ===== src/License/Policy.antt =====
-- The license policy of backend/internal/license/checker.go: classifying one identifier, the active
-- policy and its replacement, and `Categorize`. Go's sets of identifiers are lists without
-- repetition; `Normalize` (backend/internal/license/normalize.go) is a parameter.
pub mod Laws
pub mod Defaults
use bomhort.Base.{
  ℕ, Text, Bool, true, false, ◌&&◌, ◌||◌, Option, none, some, List, [], ◌∷◌, ◌++◌, codes, ◌==◌,
  contains, any, has_prefix, trim_space, length, if◌then◌else◌,
}
use bomhort.License.Category.{
  Category, permissive, copyleft, unapproved, unknown, is_unknown, ExpressionMode, off, strict,
  mode_text, parse_expression_mode, default_expression_mode,
}
use bomhort.License.Token.{tokenize, has_operator}
use bomhort.License.Result.{Result, ok, err, out_of_fuel}
use bomhort.License.Node.{Node}
use bomhort.License.Parse.{parse_expression}
use bomhort.License.Leaf.{is_no_license_info, lookup_leaf}
use bomhort.License.Evaluate.{evaluate}

pub record PolicyFile : Type 0 where
  pub description : Text
  pub permissive_ids : List Text
  pub copyleft_ids : List Text
  pub expression_mode : Text

pub record Policy : Type 0 where
  pub permissive_set : List Text
  pub copyleft_set : List Text
  pub mode : ExpressionMode

-- m[id] = true
unfoldable pub add_id : List Text → Text → List Text
add_id ids id = if contains ids id then ids else ids ++ id ∷ []

unfoldable pub add_ids : List Text → List Text → List Text
unfolding add_id
add_ids set [] = set
add_ids set (id ∷ ids) = add_ids (add_id set id) ids

unfoldable pub build_policy : List Text → List Text → ExpressionMode → Policy
unfolding add_ids
build_policy permissive_ids copyleft_ids mode = record {
  permissive_set = add_ids [] permissive_ids;
  copyleft_set = add_ids [] copyleft_ids;
  mode = mode;
}

-- id is base with an SPDX modifier behind a dash.
unfoldable pub extends : Text → Text → Bool
extends id base = has_prefix (base ++ codes "-") id

unfoldable pub categorize_single : Policy → Text → Category
categorize_single p id =
    if contains p.permissive_set id
    then permissive
    else (if contains p.copyleft_set id
        then copyleft
        else (if any (extends id) p.permissive_set
            then permissive
            else (if any (extends id) p.copyleft_set then copyleft else unknown)))

-- The category of a parsed expression. The case of no value is a panic in Go.
unfoldable pub fold_tree : (Text → Category) → ExpressionMode → Result Node → Category
fold_tree single mode (ok tree) = elim (evaluate mode single tree) [ some c ↦ c | none ↦ unknown ]
fold_tree single mode (err e) = unknown
fold_tree single mode out_of_fuel = unknown

-- An identifier or expression that is not in the policy as it stands.
unfoldable pub categorize_unlisted : (Text → Category) → ExpressionMode → Text → Category
categorize_unlisted single off id = unapproved
categorize_unlisted single mode id =
    if has_operator (tokenize id)
    then fold_tree single mode (parse_expression id)
    else lookup_leaf single id

-- `Categorize` behind `Normalize`, with the policy's lookup and mode.
unfoldable pub categorize_with : (Text → Category) → ExpressionMode → Text → Category
categorize_with single mode id =
    if is_no_license_info id
    then unknown
    else (if is_unknown (single id) then categorize_unlisted single mode id else single id)

unfoldable pub categorize : (Text → Text) → Policy → Text → Category
categorize normalize p license_id =
    categorize_with (categorize_single p) p.mode (normalize (trim_space license_id))

pub data LoadError : Type 0 where
  unreadable malformed bad_mode : LoadError

pub data Loaded : Type 0 where
  loaded : ℕ → ℕ → Loaded
  refused : LoadError → Loaded

-- `LoadPolicy` on the active policy. Reading the file and decoding its JSON are parameters.
module _ {Bytes : Type 0} (read_file : Text → Option Bytes)
    (unmarshal : Bytes → Option PolicyFile) where
  unfoldable pub load_policy : Text → Policy → Policy × Loaded
  load_policy path active = elim (read_file path) [
    | none ↦ (active, refused unreadable)
    | some content ↦ elim (unmarshal content) [
      | none ↦ (active, refused malformed)
      | some pf ↦ elim (parse_expression_mode pf.expression_mode) [
        | none ↦ (active, refused bad_mode)
        | some mode ↦ (
          build_policy pf.permissive_ids pf.copyleft_ids mode,
          loaded (length pf.permissive_ids) (length pf.copyleft_ids),
        )
      ]
    ]
  ]

unfoldable pub set_expression_mode : ExpressionMode → Policy → Policy
set_expression_mode mode active = record active { mode = mode }

unfoldable pub get_expression_mode : Policy → ExpressionMode
get_expression_mode active = active.mode

unfoldable pub get_policy : Policy → PolicyFile
get_policy active = record {
  description = [];
  permissive_ids = active.permissive_set;
  copyleft_ids = active.copyleft_set;
  expression_mode = mode_text active.mode;
}
