-- ===== src/Tags.antt =====
-- Grouping labels (backend/internal/tags/tags.go). A string is the list of its bytes, since a tag is cut
-- after so many bytes. `nil` and the empty slice are one empty list.
pub mod Bounds
pub mod Order
pub mod Examples
use bomhort.Base.{
  ℕ, zero, suc, Text, Bool, true, false, ◌||◌, List, [], ◌∷◌, ◌++◌, is_empty, contains, ltb, length,
  sort, split_on, if◌then◌else◌,
}

-- What the Go library computes: `strings.TrimSpace` and `strings.ToLower`.
pub record Strings : Type 0 where
  pub trim_space : Text → Text
  pub to_lower : Text → Text

abbrev pub max_len : ℕ
max_len = 64

abbrev pub max_count : ℕ
max_count = 32

abbrev pub first_bytes : ℕ → Text → Text
first_bytes zero t = []
first_bytes (suc n) [] = []
first_bytes (suc n) (b ∷ t) = b ∷ first_bytes n t

-- A tag without its blanks, in lower case, and no longer than the limit.
unfoldable pub clean_tag : Strings → Text → Text
clean_tag lib raw =
    let t = lib.to_lower (lib.trim_space raw) in
    if ltb max_len (length t) then first_bytes max_len t else t

-- The loop over the tags, with room for `n` more in `out`.
unfoldable pub collect : Strings → ℕ → List Text → List Text → List Text
collect lib zero raw out = out
collect lib (suc n) [] out = out
collect lib (suc n) (r ∷ raw) out =
    let t = clean_tag lib r in
    let skipped = collect lib (suc n) raw out in
    let added = collect lib n raw (out ++ t ∷ []) in
    if is_empty t || contains out t then skipped else added

unfoldable pub normalize : Strings → List Text → List Text
normalize lib raw = sort (collect lib max_count raw [])

unfoldable pub parse : Strings → Text → List Text
parse lib s = if is_empty (lib.trim_space s) then [] else normalize lib (split_on b',' s)

abbrev pub concat : List (List Text) → List Text
concat [] = []
concat (l ∷ lists) = l ++ concat lists

unfoldable pub merge : Strings → List (List Text) → List Text
merge lib lists = normalize lib (concat lists)
