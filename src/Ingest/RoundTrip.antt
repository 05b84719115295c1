-- ===== src/Ingest/RoundTrip.antt =====
-- Printing a layout and parsing it again (backend/internal/ingestpath/ingestpath.go).
use mathlib.Core.List.{reverse-reverse}
use bomhort.Base.{
  ◌⊎◌, ◌⊎◌, reverse-middle, reverse-middle, ℕ, Text, Bool, true, false, ◌||◌, not, List, [], ◌∷◌,
  ◌++◌, ◌==◌, is_empty, eqb, map, all, trim_space, trim_left, is_space, to_lower, split_on,
  join_with, is_piece, split_on-join_with, split_on-cons, reverse, ◌≡◌, ◌≢◌, refl, sym, ap, ◌∙◌,
  subst, arith, Bool-cases, inl, inr,
}
use bomhort.Ingest.{
  Segment, cluster, namespace, project, parent, tag, file, skip, token_of, Layout, layout_text,
  Parsed, parsed, invalid, and_then, trim_slashes, trim_slashes_left, is_last, admit, read_segment,
  parse_segments, ends_in_file, disabled, parse_layout,
}

read_segment-token_of : (s : Segment) → read_segment (to_lower (trim_space (token_of s))) ≡ parsed s
unfolding read_segment to_lower trim_space bomhort.Ingest.segment_of ◌==◌
read_segment-token_of cluster = refl
read_segment-token_of namespace = refl
read_segment-token_of project = refl
read_segment-token_of parent = refl
read_segment-token_of tag = refl
read_segment-token_of file = refl
read_segment-token_of skip = refl

-- The segments that a parse returns are accepted again, from their tokens.
and_then-parsed :
    {A B : Type 0} (m : Parsed A) (f : A → Parsed B) (b : B)
    → and_then m f ≡ parsed b
    → (a : A) × (m ≡ parsed a) × (f a ≡ parsed b)
and_then-parsed (parsed a) f b h = (a, refl, h)
and_then-parsed (invalid e) f b h = cc

parse_segments-map :
    (raws seen : List Text) (ss : List Segment)
    → parse_segments raws seen ≡ parsed ss
    → (parse_segments (map token_of ss) seen ≡ parsed ss)
      × (is_last (map token_of ss) ≡ is_last raws)
unfolding parse_segments
parse_segments-map [] seen ss h = let e : ss ≡ [] = cc in rw e (refl, refl)
parse_segments-map (raw ∷ raws) seen ss h =
    let (s, e, k) = and_then-parsed (read_segment (to_lower (trim_space raw))) _ ss h in
    let (seen', f, m) = and_then-parsed (admit s seen (is_last raws)) _ ss k in
    let (rest, g, n) = and_then-parsed (parse_segments raws seen') _ ss m in
    let (again, same) = parse_segments-map raws seen' rest g in
    let whole : ss ≡ s ∷ rest = cc in
    rw (whole) (rw (read_segment-token_of, same, f, again) refl, refl)

-- The first character is neither blank nor slash.
abbrev is_edge : ℕ → Bool
is_edge c = not (is_space c || eqb c b'/')

Front : Text → Type 0
Front s = (c : ℕ) × (rest : Text) × (s ≡ c ∷ rest) × (is_edge c ≡ true)

Front-append : (s t : Text) → Front s → Front (s ++ t)
unfolding Front
Front-append s t (c, rest, e, h) = (c, rest ++ t, ap (λ u. u ++ t) e, h)

trim_left-Front : (s : Text) → Front s → trim_left s ≡ s
unfolding Front trim_left
trim_left-Front s (c, rest, e, h) =
    let blank : is_space c ≡ false = ground arith in rw e (rw blank refl)

trim_slashes_left-Front : (s : Text) → Front s → trim_slashes_left s ≡ s
unfolding Front trim_slashes_left
trim_slashes_left-Front s (c, rest, e, h) =
    let slash : eqb c b'/' ≡ false = ground arith in rw e (rw slash refl)

is_empty-Front : (s : Text) → Front s → is_empty s ≡ false
unfolding Front
is_empty-Front s (c, rest, e, h) = rw e refl

trim-Front : (s : Text) → Front s → Front (reverse s) → trim_slashes (trim_space s) ≡ s
unfolding trim_space trim_slashes
trim-Front s front back =
    let inner : reverse (trim_left (reverse (trim_left s))) ≡ s =
      rw (trim_left-Front s front, trim_left-Front (reverse s) back) (reverse-reverse s) in
    rw (inner, trim_slashes_left-Front s front, trim_slashes_left-Front (reverse s) back)
      (reverse-reverse s)

Front-token_of : (s : Segment) → Front (token_of s) × Front (reverse (token_of s))
unfolding Front is_space
Front-token_of cluster = ((_, _, refl, refl), (_, _, refl, refl))
Front-token_of namespace = ((_, _, refl, refl), (_, _, refl, refl))
Front-token_of project = ((_, _, refl, refl), (_, _, refl, refl))
Front-token_of parent = ((_, _, refl, refl), (_, _, refl, refl))
Front-token_of tag = ((_, _, refl, refl), (_, _, refl, refl))
Front-token_of file = ((_, _, refl, refl), (_, _, refl, refl))
Front-token_of skip = ((_, _, refl, refl), (_, _, refl, refl))

abbrev joined : List Segment → Text
joined ss = join_with b'/' (map token_of ss)

Front-joined : (s : Segment) (ss : List Segment) → Front (joined (s ∷ ss))
unfolding join_with
Front-joined s [] = (Front-token_of s).0
Front-joined s (t ∷ ss) = Front-append (token_of s) (b'/' ∷ joined (t ∷ ss)) (Front-token_of s).0

Front-reverse-joined : (s : Segment) (ss : List Segment) → Front (reverse (joined (s ∷ ss)))
unfolding join_with
Front-reverse-joined s [] = (Front-token_of s).1
Front-reverse-joined s (t ∷ ss) =
    subst Front (sym (reverse-middle (token_of s) (joined (t ∷ ss)) b'/'))
      (Front-append (reverse (joined (t ∷ ss))) _ (Front-reverse-joined t ss))

is_piece-token_of : (ss : List Segment) → all (is_piece b'/') (map token_of ss) ≡ true
is_piece-token_of [] = refl
is_piece-token_of (cluster ∷ ss) = is_piece-token_of ss
is_piece-token_of (namespace ∷ ss) = is_piece-token_of ss
is_piece-token_of (project ∷ ss) = is_piece-token_of ss
is_piece-token_of (parent ∷ ss) = is_piece-token_of ss
is_piece-token_of (tag ∷ ss) = is_piece-token_of ss
is_piece-token_of (file ∷ ss) = is_piece-token_of ss
is_piece-token_of (skip ∷ ss) = is_piece-token_of ss

-- A printed layout is read segment by segment.
parse_layout-joined :
    (s : Segment) (ss : List Segment)
    → parse_segments (map token_of (s ∷ ss)) [] ≡ parsed (s ∷ ss)
    → parse_layout (joined (s ∷ ss))
      ≡ parsed (record { segments = s ∷ ss; file_project = ends_in_file (s ∷ ss) })
unfolding parse_layout
parse_layout-joined s ss h =
    let front = Front-joined s ss in
    let whole = trim-Front (joined (s ∷ ss)) front (Front-reverse-joined s ss) in
    let pieces =
      split_on-join_with b'/' (token_of s) (map token_of ss) (is_piece-token_of (s ∷ ss)) in
    rw (whole, is_empty-Front (joined (s ∷ ss)) front, pieces, h) refl

parse_segments-ne-nil :
    (raw : Text) (raws seen : List Text) (ss : List Segment)
    → parse_segments (raw ∷ raws) seen ≡ parsed ss
    → ss ≢ []
unfolding parse_segments
parse_segments-ne-nil raw raws seen ss h n =
    let (s, e, k) = and_then-parsed (read_segment (to_lower (trim_space raw))) _ ss h in
    let (seen', f, m) = and_then-parsed (admit s seen (is_last raws)) _ ss k in
    let (rest, g, q) = and_then-parsed (parse_segments raws seen') _ ss m in cc

parse_layout-segments :
    (raws : List Text) (ss : List Segment)
    → raws ≢ []
    → parse_segments raws [] ≡ parsed ss
    → parse_layout (joined ss) ≡ parsed (record { segments = ss; file_project = ends_in_file ss })
parse_layout-segments [] ss some_raws h = absurd (some_raws refl)
parse_layout-segments (raw ∷ raws) [] some_raws h =
    absurd (parse_segments-ne-nil raw raws [] [] h refl)
parse_layout-segments (raw ∷ raws) (s ∷ ss) some_raws h =
    parse_layout-joined s ss (parse_segments-map (raw ∷ raws) [] (s ∷ ss) h).0

split_on-ne-nil : (s : Text) → split_on b'/' s ≢ []
split_on-ne-nil s n = let (first, rest, e) = split_on-cons b'/' s in cc

abbrev layout_of : List Segment → Parsed Layout
layout_of ss = parsed (record { segments = ss; file_project = ends_in_file ss })

parse_layout-disabled : parse_layout (layout_text disabled) ≡ parsed disabled
unfolding parse_layout layout_text trim_slashes trim_slashes_left trim_space join_with
parse_layout-disabled = refl

parse_layout_cases :
    (spec : Text)
    → (parse_layout spec ≡ parsed disabled)
      ⊎ (parse_layout spec
          ≡ and_then (parse_segments (split_on b'/' (trim_slashes (trim_space spec))) []) layout_of)
unfolding parse_layout
parse_layout_cases spec = elim (Bool-cases (is_empty (trim_slashes (trim_space spec)))) [
  | inl e ↦ inl (rw e refl)
  | inr e ↦ inr (rw e refl)
]

-- Whatever specification a layout was parsed from, its printed form is parsed to the same layout.
pub parse_layout-layout_text :
    (spec : Text) (l : Layout)
    → parse_layout spec ≡ parsed l
    → parse_layout (layout_text l) ≡ parsed l
parse_layout-layout_text spec l h = elim (parse_layout_cases spec) [
  | inl e ↦ let none_declared : l ≡ disabled = cc in rw none_declared parse_layout-disabled
  | inr e ↦
      let pieces = split_on b'/' (trim_slashes (trim_space spec)) in
      let (ss, parse, whole) = and_then-parsed (parse_segments pieces []) layout_of l (sym e ∙ h) in
      let same : l ≡ record { segments = ss; file_project = ends_in_file ss } = cc in
      rw same (
        unfold layout_text in
        parse_layout-segments pieces ss (split_on-ne-nil (trim_slashes (trim_space spec))) parse)
]
