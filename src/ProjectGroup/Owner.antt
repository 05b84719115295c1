-- ===== src/ProjectGroup/Owner.antt =====
-- Who owns a project (backend/internal/projectgroup/owner.go).
use bomhort.Base.{
  ℕ, zero, suc, Text, codes, Bool, true, false, ◌&&◌, ◌||◌, not, Option, some, none, List, [], ◌∷◌,
  ◌++◌, map, ◌==◌, is_empty, eqb, leb, ltb, length, keep, reverse, trim_space, split_on, join_with,
  has_suffix, cut_before, is_some, if◌then◌else◌,
}
use bomhort.ProjectGroup.{
  Library, Signals, lower, source_repo_owner, source_document, source_purl, source_supplier,
}

-- splitPath
unfoldable pub split_segments : Text → List Text
split_segments p = keep (λ s. not (is_empty s)) (map trim_space (split_on b'/' p))

abbrev pub segment : ℕ → List Text → Text
segment i [] = []
segment zero (s ∷ segs) = s
segment (suc i) (s ∷ segs) = segment i segs

-- segs[:len(segs)-1]
abbrev pub without_last : List Text → List Text
without_last [] = []
without_last (s ∷ []) = []
without_last (s ∷ t ∷ segs) = s ∷ without_last (t ∷ segs)

abbrev pub last_segment : List Text → Text
last_segment [] = []
last_segment (s ∷ []) = s
last_segment (s ∷ t ∷ segs) = last_segment (t ∷ segs)

abbrev pub behind_first : List Text → List Text
behind_first [] = []
behind_first (s ∷ segs) = segs

abbrev pub visualstudio : Text
visualstudio = codes ".visualstudio.com"

abbrev pub drop_runes : ℕ → Text → Text
drop_runes zero s = s
drop_runes (suc n) [] = []
drop_runes (suc n) (c ∷ s) = drop_runes n s

-- strings.TrimSuffix
abbrev pub trim_suffix : Text → Text → Text
trim_suffix suffix s =
    if has_suffix suffix s then reverse (drop_runes (length suffix) (reverse s)) else s

unfoldable pub repo_owner : Text → List Text → Text
repo_owner host segs =
    if host == codes "dev.azure.com" && leb 4 (length segs) && segment 2 segs == codes "_git"
    then segment 0 segs ++ b'/' ∷ segment 1 segs
    else (if has_suffix visualstudio host && leb 3 (length segs) && segment 1 segs == codes "_git"
        then trim_suffix visualstudio host ++ b'/' ∷ segment 0 segs
        else (if leb 3 (length segs) && segment 0 segs == codes "scm"
            then segment 1 segs
            else (if leb 4 (length segs)
                  && segment 0 segs == codes "projects"
                  && segment 2 segs == codes "repos"
                then segment 1 segs
                else (if ltb (length segs) 2 then [] else join_with b'/' (without_last segs)))))

abbrev pub owner_of_url : Library → Option (Text × Text) → Text
owner_of_url lib none = []
owner_of_url lib (some (host, path)) =
    if is_empty host then [] else repo_owner (lower lib host) (split_segments path)

unfoldable pub owner_from_repo : Library → Text → Text
owner_from_repo lib repo =
    let r = trim_space repo in if is_empty r then [] else owner_of_url lib (lib.parse_url r)

-- The token before the first blank or tab.
abbrev pub first_token : Text → Text
first_token [] = []
first_token (c ∷ s) = let rest = first_token s in if eqb c 0x20 || eqb c 0x09 then [] else c ∷ rest

abbrev pub has_dot : Text → Bool
has_dot s = is_some (cut_before (codes ".") s)

-- A leading registry or host is dropped from a path of more than `n` segments.
abbrev pub drop_host : ℕ → List Text → List Text
drop_host n segs =
    if ltb n (length segs) && has_dot (segment 0 segs) then behind_first segs else segs

unfoldable pub owner_from_document_name : Text → Text
owner_from_document_name name =
    let tok = first_token (trim_space name) in
    let segs = split_segments tok in
    if is_empty tok || is_some (cut_before (codes "://") tok) || ltb (length segs) 2
    then []
    else join_with b'/' (without_last (drop_host 2 segs))

-- "pkg:" in any case, and what follows
abbrev pub after_scheme : Text → Option Text
after_scheme (p ∷ k ∷ g ∷ c ∷ s) =
    if (eqb p b'p' || eqb p b'P')
      && (eqb k b'k' || eqb k b'K')
      && (eqb g b'g' || eqb g b'G')
      && eqb c b':'
    then some s
    else none
after_scheme _ = none

-- strings.Cut at one rune: the part before it, and the part behind it, if the rune is there.
unfoldable pub cut_at : ℕ → Text → Text × Option Text
cut_at c [] = ([], none)
cut_at c (a ∷ s) =
    let (before, after) = cut_at c s in if eqb a c then ([], some s) else (a ∷ before, after)

abbrev pub or_empty : Option Text → Text
or_empty none = []
or_empty (some s) = s

unfoldable pub trim_left_slashes : Text → Text
trim_left_slashes [] = []
trim_left_slashes (c ∷ s) = let rest = trim_left_slashes s in if eqb c b'/' then rest else c ∷ s

-- The rest read backwards, behind its last "@", if that stands behind its last "/".
abbrev pub behind_version : Text → Option Text
behind_version [] = none
behind_version (c ∷ s) =
    let rest = behind_version s in
    if eqb c b'@' then some s else (if eqb c b'/' then none else rest)

abbrev pub drop_version : Text → Text
drop_version rest = elim (behind_version (reverse rest)) [ none ↦ rest | some r ↦ reverse r ]

abbrev pub unescape : Library → Text → Text
unescape lib s = elim (lib.path_unescape s) [ none ↦ s | some d ↦ d ]

abbrev pub all_digits : Text → Bool
all_digits [] = true
all_digits (c ∷ s) = leb b'0' c && leb c b'9' && all_digits s

-- ^v[0-9]+$
abbrev pub is_major_version : Text → Bool
is_major_version [] = false
is_major_version (v ∷ s) = eqb v b'v' && not (is_empty s) && all_digits s

abbrev pub trim_at : Text → Text
trim_at [] = []
trim_at (c ∷ s) = if eqb c b'@' then s else c ∷ s

abbrev pub golang_owner : List Text → Text → List Text
golang_owner ns name = drop_host 1 (if is_major_version name then without_last ns else ns)

abbrev pub npm_owner : List Text → List Text
npm_owner [] = []
npm_owner (s ∷ ns) = trim_at s ∷ ns

-- The repository in the qualifiers of an image without a namespace.
abbrev pub image_owner : Option Text → List Text
image_owner none = []
image_owner (some r) =
    let rs = drop_host 2 (split_segments r) in if leb 2 (length rs) then without_last rs else []

unfoldable pub purl_namespace : Library → Text → List Text → Text → Text → List Text
purl_namespace lib typ ns name qualifiers =
    if typ == codes "golang"
    then golang_owner ns name
    else (if typ == codes "npm"
        then npm_owner ns
        else (if (typ == codes "oci" || typ == codes "docker") && eqb (length ns) 0
            then image_owner (lib.query_value qualifiers (codes "repository_url"))
            else ns))

abbrev pub is_empty_path : List Text → Bool
is_empty_path [] = true
is_empty_path (s ∷ segs) = false

-- The type, and what follows it, are split off; `qualifiers` is what stands behind "?".
abbrev pub owner_of_purl : Library → Text → Text → Option Text → Text
owner_of_purl lib qualifiers typ none = []
owner_of_purl lib qualifiers typ (some rest) =
    let segs = map (unescape lib) (split_segments (drop_version (trim_left_slashes rest))) in
    if is_empty_path segs
    then []
    else join_with b'/'
        (purl_namespace lib (lower lib typ) (without_last segs) (last_segment segs) qualifiers)

abbrev pub owner_of_body : Library → Option Text → Text
owner_of_body lib none = []
owner_of_body lib (some p) =
    let (body, _) = cut_at b'#' p in
    let (path, qualifiers) = cut_at b'?' body in
    let (typ, rest) = cut_at b'/' path in owner_of_purl lib (or_empty qualifiers) typ rest

unfoldable pub owner_from_purl : Library → Text → Text
owner_from_purl lib purl = owner_of_body lib (after_scheme (trim_space purl))

-- The owner as written, and the source that it comes from.
unfoldable pub owner_key : Library → Signals → Text × Text
owner_key lib s =
    let repo = owner_from_repo lib s.source_repo in
    let document = owner_from_document_name s.document_name in
    let purl = owner_from_purl lib s.root_purl in
    let supplier = trim_space s.supplier in
    if not (is_empty repo)
    then (repo, source_repo_owner)
    else (if not (is_empty document)
        then (document, source_document)
        else (if not (is_empty purl)
            then (purl, source_purl)
            else (if not (is_empty supplier) then (supplier, source_supplier) else ([], []))))
