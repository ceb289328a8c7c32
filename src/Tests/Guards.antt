-- ===== src/Tests/Guards.antt =====
-- A request whose cookie has a token, on a route that is guarded.
use demo_hybrid_microservice.Common.{
  ◌≡◌, refl, String, Bool, true, false, ◌&&◌, [], ◌∷◌, Option, none, some, Result, ok, error,
  str_eq, if◌then◌else◌, not, ◌||◌,
}
use demo_hybrid_microservice.Headers.{Headers, text, search_value, lookup}
use demo_hybrid_microservice.Auth.{Roles}
use demo_hybrid_microservice.Auth.Token.{token, match_later, until_semicolon, trim_end, trim_start}
use demo_hybrid_microservice.Auth.Guards.{
  can_activate, can_activate-passes, goes_on, passes, roles_of, granted_to,
}

abbrev decode : String → Result (Option Roles)
decode t = if str_eq t "signed" then ok (some (some ("admin" ∷ []))) else error "SyntaxError"

abbrev verify : String → Option String → Bool
verify t none = false
verify t (some certificate) = str_eq t "signed" && str_eq certificate "key"

abbrev plain : String → Result String
plain s = if str_eq s "%" then error "URI malformed" else ok s

abbrev headers : Headers
headers = ("cookie", text "theme=dark; authorization=Bearer signed; lang=en") ∷ []

cookie_token : token plain headers ≡ ok (some "signed")
unfolding token search_value lookup match_later until_semicolon trim_end trim_start
cookie_token = refl

can_activate-passes_example :
    let r = can_activate decode verify plain true false (some "key") headers in
    (goes_on r ≡ (not true || passes decode verify plain false (some "key") (token plain headers)))
    × (roles_of r ≡ granted_to decode verify plain (some "key") (token plain headers))
can_activate-passes_example =
    can_activate-passes decode verify plain true false (some "key") headers
