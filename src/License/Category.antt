-- ===== src/License/Category.antt =====
-- License categories (backend/internal/license/checker.go), their severity and the expression modes
-- (backend/internal/license/expression.go).
use bomhort.Base.{
  ℕ, Text, Bool, true, false, Option, none, some, [], codes, ◌==◌, to_lower, trim_space,
  if◌then◌else◌,
}

pub data Category : Type 0 where
  permissive copyleft unapproved unknown : Category

-- permissive < unknown < unapproved < copyleft
abbrev pub severity : Category → ℕ
severity permissive = 0
severity unknown = 1
severity unapproved = 2
severity copyleft = 3

abbrev pub is_unknown : Category → Bool
is_unknown unknown = true
is_unknown _ = false

abbrev pub is_permissive : Category → Bool
is_permissive permissive = true
is_permissive _ = false

pub data ExpressionMode : Type 0 where
  strict permissive_wins off : ExpressionMode

abbrev pub mode_text : ExpressionMode → Text
mode_text strict = codes "strict"
mode_text permissive_wins = codes "permissive-wins"
mode_text off = codes "off"

abbrev pub default_expression_mode : ExpressionMode
default_expression_mode = strict

-- `none` is the error for a value that names no mode.
unfoldable pub parse_expression_mode : Text → Option ExpressionMode
unfolding to_lower trim_space ◌==◌
parse_expression_mode s =
    let m = to_lower (trim_space s) in
    if m == []
    then some default_expression_mode
    else (if m == mode_text strict
        then some strict
        else (if m == mode_text permissive_wins
            then some permissive_wins
            else (if m == mode_text off then some off else none)))
