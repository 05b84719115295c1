-- ===== src/Ingest/Examples.antt =====
-- Ingest path layouts (backend/internal/ingestpath) on concrete specifications and keys.
use bomhort.Base.{Text, codes, List, [], ◌∷◌, ◌≡◌, refl, true, false}
use bomhort.Ingest.{
  Segment, parent, project, tag, skip, file, Layout, parse_layout, parsed, layout_text, derive,
}
use bomhort.Ingest.RoundTrip.{parse_layout-layout_text}

abbrev by_product : Layout
by_product = record { segments = parent ∷ skip ∷ project ∷ []; file_project = false }

abbrev by_file : Layout
by_file = record { segments = tag ∷ skip ∷ tag ∷ file ∷ []; file_project = true }

abbrev sloppy : Text
sloppy = codes " /Parent / _/project/"

sloppy-parsed : parse_layout sloppy ≡ parsed by_product
unfolding parse_layout bomhort.Ingest.trim_slashes bomhort.Ingest.trim_slashes_left
    bomhort.Base.trim_space bomhort.Ingest.parse_segments bomhort.Base.split_on
    bomhort.Base.extend_first bomhort.Ingest.read_segment bomhort.Base.to_lower
    bomhort.Ingest.segment_of bomhort.Base.◌==◌ bomhort.Ingest.admit bomhort.Base.contains
sloppy-parsed = refl

parse_layout-layout_text_example : parse_layout (layout_text by_product) ≡ parsed by_product
parse_layout-layout_text_example = parse_layout-layout_text sloppy by_product sloppy-parsed

by_file-derive : derive by_file (codes "sandbox/17/acme/lib.spdx.json") ≡ record {
  cluster_name = [];
  namespace_name = [];
  project_name = codes "lib";
  parent_name = [];
  tags = codes "sandbox" ∷ codes "acme" ∷ [];
}
unfolding derive bomhort.Ingest.enabled bomhort.Ingest.split_path bomhort.Ingest.split_last
    bomhort.Ingest.clean bomhort.Base.split_on bomhort.Ingest.to_slash bomhort.Base.extend_first
    bomhort.Ingest.is_name bomhort.Base.trim_space bomhort.Base.◌==◌ bomhort.Ingest.derive_from
    bomhort.Ingest.assign_all bomhort.Ingest.all_but_last bomhort.Ingest.assign
    bomhort.Ingest.strip_extensions
by_file-derive = refl
