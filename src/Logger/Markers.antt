-- ===== src/Logger/Markers.antt =====
-- `filterMarkers` of src/modules/elk-logger/helpers/log-fields.helper.ts.
pub mod Sets
use demo_hybrid_microservice.Common.{
  String, Bool, true, false, not, ◌&&◌, List, [], ◌∷◌, ◌++◌, Option, none, some, if◌then◌else◌,
  str_eq, includes,
}

-- The loop: `if (!markers.includes(marker) && marker)`.
pub keep_markers : List String → List String → List String
keep_markers markers [] = markers
keep_markers markers (m ∷ ms) =
    keep_markers
      (if not (includes markers m) && not (str_eq m "") then markers ++ m ∷ [] else markers) ms

-- The property is deleted if no marker is left.
unless_empty : List String → Option (List String)
unless_empty [] = none
unless_empty (m ∷ ms) = some (m ∷ ms)

-- `none` where the record has no markers.
pub filter_markers : Option (List String) → Option (List String)
unfolding keep_markers unless_empty
filter_markers none = none
filter_markers (some []) = some []
filter_markers (some (m ∷ ms)) = unless_empty (keep_markers [] (m ∷ ms))
