-- ===== src/Headers/Normal.antt =====
-- What a receiver that normalizes the headers reads of them.
use demo_hybrid_microservice.Common.{
  ◌≡◌, refl, ◌∙◌, String, not, [], ◌∷◌, map, str_eq, Bool-cases, inl, inr, arith,
}
use demo_hybrid_microservice.Headers.{
  Headers, lookup, set, delete, spread_headers, search_header_as_string, normalize_header,
  normalize,
}
use demo_hybrid_microservice.Headers.Lookup.{
  IsObject, set-IsObject, lookup-delete, lookup-spread_headers, search-read_header,
}
use demo_hybrid_microservice.Headers.Sent.{or_header-none}

pub delete-IsObject :
    (k : String) (headers : Headers) → IsObject headers → IsObject (delete k headers)
delete-IsObject k [] o = tt
delete-IsObject k ((j, h) ∷ headers) o = elim (Bool-cases (not (str_eq j k))) [
  | inl kept ↦
      rw kept (ground (arith, lookup-delete j k headers, o.0), delete-IsObject k headers o.1)
  | inr dropped ↦ rw dropped (delete-IsObject k headers o.1)
]

pub spread_headers-IsObject :
    (headers others : Headers) → IsObject headers → IsObject (spread_headers headers others)
unfolding spread_headers
spread_headers-IsObject headers [] o = o
spread_headers-IsObject headers ((k, h) ∷ others) o =
    spread_headers-IsObject (set k h headers) others (set-IsObject k h headers o)

module _ (lower trim : String → String) where
  -- The names are in lower case, and neither names nor values have outer spaces.
  abbrev pub IsNormal : Headers → Type 0
  IsNormal headers = map (normalize_header lower trim) headers ≡ headers

  lookup-normalize :
      (name : String) (headers : Headers)
      → IsObject headers
      → IsNormal headers
      → lookup name (normalize lower trim headers) ≡ lookup name headers
  unfolding lookup
  lookup-normalize name headers o normal =
      rw normal (lookup-spread_headers name [] headers o ∙ or_header-none (lookup name headers))

  pub search-normalize :
      (name : String) (headers : Headers)
      → IsObject headers
      → IsNormal headers
      → search_header_as_string (normalize lower trim headers) (name ∷ [])
        ≡ search_header_as_string headers (name ∷ [])
  search-normalize name headers o normal =
      rw
        (
          search-read_header name (normalize lower trim headers),
          search-read_header name headers,
          lookup-normalize name headers o normal,
        )
        refl
