-- ===== src/Ingest.antt =====
-- Ownership dimensions and tags from the path of an SBOM (backend/internal/ingestpath/ingestpath.go).
-- Go's `seen` map holds the dimensions set so far; the model lists them.
pub mod RoundTrip
pub mod Examples
use bomhort.Base.{
  ℕ, suc, Text, Bool, true, false, ◌&&◌, ◌||◌, not, Option, some, none, List, [], ◌∷◌, ◌++◌, codes,
  ◌==◌, is_empty, contains, eqb, map, trim_space, to_lower, split_on, join_with, keep, reverse,
  if◌then◌else◌,
}

pub data Segment : Type 0 where
  cluster namespace project parent tag file skip : Segment

-- the token of a segment
abbrev pub token_of : Segment → Text
token_of cluster = codes "cluster"
token_of namespace = codes "namespace"
token_of project = codes "project"
token_of parent = codes "parent"
token_of tag = codes "tag"
token_of file = codes "file"
token_of skip = codes "_"

unfoldable pub segment_of : Text → Option Segment
segment_of s =
    if s == token_of cluster
    then some cluster
    else (if s == token_of namespace
        then some namespace
        else (if s == token_of project
            then some project
            else (if s == token_of parent
                then some parent
                else (if s == token_of tag
                    then some tag
                    else (if s == token_of file
                        then some file
                        else (if s == token_of skip then some skip else none))))))

pub record Attributes : Type 0 where
  pub cluster_name : Text
  pub namespace_name : Text
  pub project_name : Text
  pub parent_name : Text
  pub tags : List Text

pub record Layout : Type 0 where
  pub segments : List Segment
  pub file_project : Bool

pub data LayoutError : Type 0 where
  empty_segment duplicate_segment file_not_last file_and_project unknown_segment : LayoutError

pub data Parsed (A : Type 0) : Type 0 where
  parsed : A → Parsed A
  invalid : LayoutError → Parsed A

abbrev pub and_then : {A B : Type 0} → Parsed A → (A → Parsed B) → Parsed B
and_then (parsed a) f = f a
and_then (invalid e) f = invalid e

abbrev no_attributes : Attributes
no_attributes = record {
  cluster_name = [];
  namespace_name = [];
  project_name = [];
  parent_name = [];
  tags = [];
}

unfoldable pub enabled : Layout → Bool
enabled l = elim l.segments [ [] ↦ false | ◌∷◌ s ss ↦ true ]

unfoldable pub layout_text : Layout → Text
layout_text l = join_with b'/' (map token_of l.segments)

-- strings.Trim(s, "/")
unfoldable pub trim_slashes_left : Text → Text
trim_slashes_left [] = []
trim_slashes_left (c ∷ s) = if eqb c b'/' then trim_slashes_left s else c ∷ s

unfoldable pub trim_slashes : Text → Text
trim_slashes s = reverse (trim_slashes_left (reverse (trim_slashes_left s)))

abbrev pub is_last : List Text → Bool
is_last [] = true
is_last (s ∷ ss) = false

abbrev pub mem_dimension : Segment → List Text → Bool
mem_dimension s seen = contains seen (token_of s)

-- The switch of the loop: the dimensions that are set after a segment, or the error.
unfoldable pub admit : Segment → List Text → Bool → Parsed (List Text)
admit file seen last =
    if not last
    then invalid file_not_last
    else (if mem_dimension project seen
        then invalid file_and_project
        else parsed (token_of project ∷ seen))
admit skip seen last = parsed seen
admit tag seen last = parsed seen
admit s seen last =
    if mem_dimension s seen then invalid duplicate_segment else parsed (token_of s ∷ seen)

unfoldable pub read_segment : Text → Parsed Segment
read_segment s =
    if is_empty s
    then invalid empty_segment
    else elim (segment_of s) [ none ↦ invalid unknown_segment | some t ↦ parsed t ]

unfoldable pub parse_segments : List Text → List Text → Parsed (List Segment)
parse_segments [] seen = parsed []
parse_segments (raw ∷ raws) seen = and_then (read_segment (to_lower (trim_space raw))) λ s.
    and_then (admit s seen (is_last raws))
      λ seen'. and_then (parse_segments raws seen') λ ss. parsed (s ∷ ss)

abbrev pub is_file : Segment → Bool
is_file file = true
is_file _ = false

-- segments[len(segments)-1] == TokenFile
abbrev pub ends_in_file : List Segment → Bool
ends_in_file [] = false
ends_in_file (s ∷ []) = is_file s
ends_in_file (s ∷ t ∷ ss) = ends_in_file (t ∷ ss)

abbrev pub disabled : Layout
disabled = record { segments = []; file_project = false }

unfoldable pub parse_layout : Text → Parsed Layout
parse_layout spec =
    let trimmed = trim_slashes (trim_space spec) in
    if is_empty trimmed
    then parsed disabled
    else and_then (parse_segments (split_on b'/' trimmed) [])
        λ ss. parsed (record { segments = ss; file_project = ends_in_file ss })

unfoldable pub to_slash : ℕ → ℕ
to_slash c = if eqb c 0x5c then b'/' else c

unfoldable pub is_name : Text → Bool
is_name p = not (is_empty p || p == codes "." || p == codes "..")

-- the path segments that stand for something
unfoldable pub clean : List Text → List Text
clean parts = keep is_name (map trim_space parts)

unfoldable pub split_last : List Text → List Text × Text
split_last [] = ([], [])
split_last (s ∷ []) = ([], s)
split_last (s ∷ t ∷ ss) = let (dirs, name) = split_last (t ∷ ss) in (s ∷ dirs, name)

unfoldable pub split_path : Text → List Text × Text
split_path key = split_last (clean (split_on b'/' (map to_slash key)))

unfoldable pub strip_extensions : Text → Text
strip_extensions [] = []
strip_extensions (c ∷ s) = if eqb c b'.' then [] else c ∷ strip_extensions s

unfoldable pub assign : Segment → Text → Attributes → Attributes
assign cluster dir attrs = record attrs { cluster_name = dir }
assign namespace dir attrs = record attrs { namespace_name = dir }
assign project dir attrs = record attrs { project_name = dir }
assign parent dir attrs = record attrs { parent_name = dir }
assign tag dir attrs = record attrs { tags = attrs.tags ++ dir ∷ [] }
assign file dir attrs = attrs
assign skip dir attrs = attrs

-- the loop over the tokens, in step with the directories
unfoldable pub assign_all : List Segment → List Text → Attributes → Attributes
assign_all [] dirs attrs = attrs
assign_all (s ∷ ss) [] attrs = attrs
assign_all (s ∷ ss) (dir ∷ dirs) attrs = assign_all ss dirs (assign s dir attrs)

unfoldable pub all_but_last : List Segment → List Segment
all_but_last [] = []
all_but_last (s ∷ []) = []
all_but_last (s ∷ t ∷ ss) = s ∷ all_but_last (t ∷ ss)

unfoldable pub derive_from : Layout → List Text → Text → Attributes
derive_from l dirs name =
    if l.file_project
    then assign_all (all_but_last l.segments) dirs
        (record no_attributes { project_name = strip_extensions name })
    else assign_all l.segments dirs no_attributes

abbrev pub no_path : List Text → Text → Bool
no_path [] name = is_empty name
no_path (dir ∷ dirs) name = false

unfoldable pub derive : Layout → Text → Attributes
derive l key =
    let (dirs, name) = split_path key in
    if not (enabled l)
    then no_attributes
    else (if no_path dirs name then no_attributes else derive_from l dirs name)

-- the four dimensions that a caller passes by reference
pub record Dimensions : Type 0 where
  pub of_cluster : Text
  pub of_namespace : Text
  pub of_project : Text
  pub of_parent : Text

abbrev pub fill : Text → Text → Text
fill given derived = if is_empty given then derived else given

unfoldable pub apply : Attributes → Dimensions → Dimensions
apply derived d = record {
  of_cluster = fill d.of_cluster derived.cluster_name;
  of_namespace = fill d.of_namespace derived.namespace_name;
  of_project = fill d.of_project derived.project_name;
  of_parent = fill d.of_parent derived.parent_name;
}
