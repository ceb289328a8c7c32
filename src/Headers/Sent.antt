-- ===== src/Headers/Sent.antt =====
-- What the receiver reads of the headers that the builders' loop sets.
use demo_hybrid_microservice.Common.{
  ◌≡◌, refl, sym, ap, ◌∙◌, String, false, List, [], ◌∷◌, Option, none, some, if◌then◌else◌, str_eq,
}
use demo_hybrid_microservice.Headers.{
  Header, Headers, lookup, delete, spread_headers, search_header_as_string,
}
use demo_hybrid_microservice.Headers.Builders.{
  authorization, value_to_send, add_context_value, add_context_values,
}
use demo_hybrid_microservice.Headers.Lookup.{
  lookup-delete, IsObject, or_header, lookup-spread_headers, unless_empty_text,
  lookup-set_unless_empty, set_unless_empty-IsObject, search-read_header, carried,
  read_header-carried,
}

pub or_header-none : (o : Option Header) → or_header o none ≡ o
or_header-none none = refl
or_header-none (some h) = refl

module _ (names values : String → Option String) where
  -- What the loop over the keys makes of the header of one name.
  abbrev pub added_by :
      Headers → String → Option String → Option String → Option Header → Option Header
  added_by headers name none v o = o
  added_by headers name (some k) v o =
      if str_eq k name
      then or_header (unless_empty_text (value_to_send v (lookup k headers))) o
      else o

  abbrev pub added : Headers → String → List String → Option Header → Option Header
  added headers name [] o = o
  added headers name (key ∷ keys) o =
      added headers name keys (added_by headers name (names key) (values key) o)

  pub lookup-add_context_value :
      (headers : Headers) (name : String) (k v : Option String) (tgt : Headers)
      → lookup name (add_context_value headers k v tgt)
        ≡ added_by headers name k v (lookup name tgt)
  lookup-add_context_value headers name none v tgt = refl
  lookup-add_context_value headers name (some k) v tgt =
      lookup-set_unless_empty name k (value_to_send v (lookup k headers)) tgt

  pub add_context_value-IsObject :
      (headers : Headers) (k v : Option String) (tgt : Headers)
      → IsObject tgt
      → IsObject (add_context_value headers k v tgt)
  add_context_value-IsObject headers none v tgt o = o
  add_context_value-IsObject headers (some k) v tgt o =
      set_unless_empty-IsObject k (value_to_send v (lookup k headers)) tgt o

  pub lookup-add_context_values :
      (headers : Headers) (name : String) (keys : List String) (tgt : Headers)
      → lookup name (add_context_values names values headers keys tgt)
        ≡ added headers name keys (lookup name tgt)
  unfolding add_context_values
  lookup-add_context_values headers name [] tgt = refl
  lookup-add_context_values headers name (key ∷ keys) tgt =
      lookup-add_context_values headers name keys
        (add_context_value headers (names key) (values key) tgt)
      ∙ ap (added headers name keys)
          (lookup-add_context_value headers name (names key) (values key) tgt)

  pub add_context_values-IsObject :
      (headers : Headers) (keys : List String) (tgt : Headers)
      → IsObject tgt
      → IsObject (add_context_values names values headers keys tgt)
  unfolding add_context_values
  add_context_values-IsObject headers [] tgt o = o
  add_context_values-IsObject headers (key ∷ keys) tgt o =
      add_context_values-IsObject headers keys
        (add_context_value headers (names key) (values key) tgt)
        (add_context_value-IsObject headers (names key) (values key) tgt o)

  -- The headers that are sent for the headers given.
  abbrev pub sent : List String → Headers → Headers
  sent keys given =
      spread_headers (delete authorization given)
        (add_context_values names values (delete authorization given) keys [])

  pub lookup-sent :
      (keys : List String) (given : Headers) (name : String)
      → lookup name (sent keys given)
        ≡ or_header
            (added (delete authorization given) name keys none)
            (lookup name (delete authorization given))
  unfolding lookup
  lookup-sent keys given name =
      rw (sym (lookup-add_context_values (delete authorization given) name keys [])) (
        lookup-spread_headers name (delete authorization given) _
          (add_context_values-IsObject (delete authorization given) keys [] tt))

  -- A name that the loop sets once is received with the value of its key.
  pub search-sent :
      (keys : List String) (given : Headers) (name : String) (v : Option String)
      → str_eq authorization name ≡ false
      → added (delete authorization given) name keys none
        ≡ or_header
            (unless_empty_text (value_to_send v (lookup name (delete authorization given))))
            none
      → search_header_as_string (sent keys given) (name ∷ [])
        ≡ carried v (search_header_as_string given (name ∷ []))
  search-sent keys given name v other once =
      rw
        (
          search-read_header name (sent keys given),
          search-read_header name given,
          lookup-sent keys given name,
          once,
          or_header-none,
          lookup-delete name authorization given,
          other,
        )
        (read_header-carried v (lookup name given))
