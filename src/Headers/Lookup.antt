-- ===== src/Headers/Lookup.antt =====
-- Reading headers that were set, deleted and spread.
use demo_hybrid_microservice.Common.{
  ◌≡◌, refl, ◌∙◌, String, [], ◌∷◌, Option, none, some, if◌then◌else◌, str_eq, eq_iff, Bool-cases,
  inl, inr, arith,
}
use demo_hybrid_microservice.Headers.{
  Header, Headers, text, texts, lookup, set, delete, spread_headers, nothing_found, unless_empty,
  search_next, search_value, header_text, search_header_as_string,
}
use demo_hybrid_microservice.Headers.Builders.{value_to_send, set_unless_empty}

pub lookup-set :
    (name k : String) (h : Header) (headers : Headers)
    → lookup name (set k h headers) ≡ (if str_eq k name then some h else lookup name headers)
unfolding lookup set
lookup-set name k h [] = refl
lookup-set name k h ((j, i) ∷ headers) =
    ground (arith, lookup-set name k h headers, eq_iff j k, eq_iff j name, eq_iff k name)

pub lookup-delete :
    (name k : String) (headers : Headers)
    → lookup name (delete k headers) ≡ (if str_eq k name then none else lookup name headers)
unfolding lookup
lookup-delete name k [] = ground arith
lookup-delete name k ((j, i) ∷ headers) =
    ground (arith, lookup-delete name k headers, eq_iff j k, eq_iff j name, eq_iff k name)

-- No name stands twice.
abbrev pub IsObject : Headers → Type 0
IsObject [] = Unit
IsObject ((k, h) ∷ headers) = (lookup k headers ≡ none) × IsObject headers

pub set-IsObject :
    (k : String) (h : Header) (headers : Headers) → IsObject headers → IsObject (set k h headers)
unfolding set lookup
set-IsObject k h [] o = (refl, tt)
set-IsObject k h ((j, i) ∷ headers) o = elim (Bool-cases (str_eq j k)) [
  | inl same ↦ rw same (ground (arith, o.0, eq_iff j k), o.1)
  | inr other ↦ rw other (
    ground (arith, o.0, lookup-set j k h headers, eq_iff j k, eq_iff k j),
    set-IsObject k h headers o.1,
  )
]

abbrev pub or_header : Option Header → Option Header → Option Header
or_header (some h) o = some h
or_header none o = o

pub lookup-spread_headers :
    (name : String) (headers others : Headers)
    → IsObject others
    → lookup name (spread_headers headers others)
      ≡ or_header (lookup name others) (lookup name headers)
unfolding spread_headers lookup
lookup-spread_headers name headers [] o = refl
lookup-spread_headers name headers ((k, h) ∷ others) o =
    lookup-spread_headers name (set k h headers) others o.1
    ∙ ground (arith, o.0, lookup-set name k h headers, eq_iff k name)

abbrev pub unless_empty_text : Option String → Option Header
unless_empty_text none = none
unless_empty_text (some s) = unless_empty (text s)

pub lookup-set_unless_empty :
    (name k : String) (o : Option String) (tgt : Headers)
    → lookup name (set_unless_empty k o tgt) ≡ (
        if str_eq k name
        then or_header (unless_empty_text o) (lookup name tgt)
        else lookup name tgt)
lookup-set_unless_empty name k none tgt = ground arith
lookup-set_unless_empty name k (some s) tgt = ground (arith, lookup-set name k (text s) tgt)

pub set_unless_empty-IsObject :
    (k : String) (o : Option String) (tgt : Headers)
    → IsObject tgt
    → IsObject (set_unless_empty k o tgt)
set_unless_empty-IsObject k none tgt h = h
set_unless_empty-IsObject k (some s) tgt h = elim (Bool-cases (str_eq s "")) [
  | inl empty ↦ rw empty h
  | inr full ↦ rw full (set-IsObject k (text s) tgt h)
]

abbrev pub read_header : Option Header → Option String
read_header none = none
read_header (some h) = header_text (unless_empty h)

pub search-read_header :
    (name : String) (headers : Headers)
    → search_header_as_string headers (name ∷ []) ≡ read_header (lookup name headers)
unfolding search_value
search-read_header name headers = search_one name (lookup name headers)
  where
    search_one :
        (name : String) (o : Option Header)
        → header_text (search_next name nothing_found none o).value ≡ read_header o
    search_one name none = refl
    search_one name (some h) = refl

-- The value that is received of one that is sent, where the other end reads `given` without it.
abbrev pub carried : Option String → Option String → Option String
carried none given = given
carried (some s) given = if str_eq s "" then given else some s

pub read_header-carried :
    (o : Option String) (h : Option Header)
    → read_header (or_header (unless_empty_text (value_to_send o h)) h) ≡ carried o (read_header h)
read_header-carried (some s) h = ground arith
read_header-carried none none = refl
read_header-carried none (some (text s)) = ground arith
read_header-carried none (some (texts [])) = refl
read_header-carried none (some (texts (s ∷ ss))) = ground arith
