-- ===== src/Headers.antt =====
-- Headers of messages (`src/modules/common/helpers/base.headers.helper.ts`): an object from names to a
-- string or an array of strings, in the order in which its properties were set.
use demo_hybrid_microservice.Common.{
  String, not, List, [], ◌∷◌, Option, none, some, if◌then◌else◌, str_eq, filter_by, map,
}
use Prim.Native.String.{◌++◌ as concat}
pub mod Builders
pub mod Lookup
pub mod Sent
pub mod Normal
pub mod RoundTrip

pub data Header : Type 0 where
  text : String → Header
  texts : List String → Header

-- `IHeaders`
abbrev pub Headers : Type 0
Headers = List (String × Header)

-- `headers[name]`, where `none` tells that the name is not in the headers.
unfoldable pub lookup : String → Headers → Option Header
lookup name [] = none
lookup name ((k, h) ∷ headers) =
    let rest = lookup name headers in if str_eq k name then some h else rest

-- `headers[name] = value`
unfoldable pub set : String → Header → Headers → Headers
set name value [] = (name, value) ∷ []
set name value ((k, h) ∷ headers) =
    let rest = set name value headers in
    if str_eq k name then (k, value) ∷ headers else (k, h) ∷ rest

-- `delete headers[name]`
abbrev pub delete : String → Headers → Headers
delete name headers = filter_by (λ (k, h). not (str_eq k name)) headers

-- `{ ...headers, ...others }`
unfoldable pub spread_headers : Headers → Headers → Headers
spread_headers headers [] = headers
spread_headers headers ((k, h) ∷ others) = spread_headers (set k h headers) others

-- `normalize`, where `lower` is `toLocaleLowerCase` and `trim` is that of strings.
module _ (lower trim : String → String) where
  abbrev pub normalize_value : Header → Header
  normalize_value (text s) = text (trim s)
  normalize_value (texts ss) = texts (map trim ss)

  abbrev pub normalize_header : String × Header → String × Header
  normalize_header (k, h) = (trim (lower k), normalize_value h)

  -- The loop sets one header after the other.
  abbrev pub normalize : Headers → Headers
  normalize headers = spread_headers [] (map normalize_header headers)

-- `values.join('-')`
abbrev pub join : List String → String
join [] = ""
join (s ∷ []) = s
join (s ∷ t ∷ ss) = concat s (concat "-" (join (t ∷ ss)))

-- What `searchValue` gives.
pub record Found : Type 0 where
  pub header : Option String
  pub value : Option Header

abbrev pub nothing_found : Found
nothing_found = record { header = none; value = none }

abbrev pub unless_empty : Header → Option Header
unless_empty (text s) = if str_eq s "" then none else some (text s)
unless_empty (texts []) = none
unless_empty (texts (s ∷ ss)) = some (texts (s ∷ ss))

-- The callback of `reduce` on the value found so far and the one of the name.
abbrev pub search_next : String → Found → Option Header → Option Header → Found
search_next name result (some h) o = result
search_next name result none none = result
search_next name result none (some h) = record { header = some name; value = unless_empty h }

unfoldable pub search_value : Headers → Found → List String → Found
search_value headers result [] = result
search_value headers result (name ∷ names) =
    search_value headers (search_next name result result.value (lookup name headers)) names

abbrev pub header_text : Option Header → Option String
header_text none = none
header_text (some (text s)) = some s
header_text (some (texts [])) = none
header_text (some (texts (s ∷ ss))) = some (join (s ∷ ss))

abbrev pub search_header_as_string : Headers → List String → Option String
search_header_as_string headers names = header_text (search_value headers nothing_found names).value
