-- ===== src/Osv.antt =====
-- CVE identifiers of findings (backend/internal/osvutil/cveid.go).
pub mod Order
pub mod Examples
use bomhort.Base.{
  eqb, Text, Bool, true, false, ◌&&◌, ◌||◌, not, Option, some, none, List, [], ◌∷◌, codes, leb,
  length, all, is_empty, trim_space, strip_prefix, split_on, text_le, if◌then◌else◌, ℕ,
}

abbrev pub is_digit : ℕ → Bool
is_digit c = leb b'0' c && leb c b'9'

-- \d{4}-\d{4,}
unfoldable pub is_year_and_number : Text → Bool
is_year_and_number (a ∷ b ∷ c ∷ d ∷ dash ∷ number) =
    eqb dash b'-'
    && all is_digit (a ∷ b ∷ c ∷ d ∷ [])
    && leb 4 (length number)
    && all is_digit number
is_year_and_number _ = false

-- ^CVE-\d{4}-\d{4,}$
unfoldable pub is_cve : Text → Bool
is_cve id = elim (strip_prefix (codes "CVE-") id) [
  | none ↦ false
  | some rest ↦ is_year_and_number rest
]

-- a < b
abbrev pub text_lt : Text → Text → Bool
text_lt a b = not (text_le b a)

-- One round of the loop over the aliases.
unfoldable pub better : Text → Text → Text
better best a =
    let t = trim_space a in if is_cve t && (is_empty best || text_lt t best) then t else best

unfoldable pub best_alias : Text → List Text → Text
best_alias best [] = best
best_alias best (a ∷ aliases) = best_alias (better best a) aliases

unfoldable pub cve_id : Text → List Text → Text
cve_id vuln_id aliases = if is_cve vuln_id then vuln_id else best_alias [] aliases
