-- ===== src/Auth/Guards.antt =====
-- `canActivate` of the guards of the transports: src/modules/http/http-server/guards/http.auth.guard.ts,
-- src/modules/grpc/grpc-server/guards/grpc.auth.guard.ts and src/modules/websocket/guards/ws.auth.guard.ts.
-- They have the same steps; headers are those that `normalize` gives; the context that they set for the
-- call of `authenticate` is left out.
use demo_hybrid_microservice.Common.{
  ◌≡◌, refl, ◌∙◌, String, Bool, true, false, not, ◌||◌, ◌&&◌, Option, none, some, if◌then◌else◌,
  str_eq, Result, ok, error, Bool-cases, inl, inr,
}
use demo_hybrid_microservice.Headers.{Headers}
use demo_hybrid_microservice.Auth.{
  AuthStatus, success, token_absent, token_parse_error, verify_failed, Roles, AuthInfo, verified,
  decoded, authenticate,
}
use demo_hybrid_microservice.Auth.Token.{token}

-- What a guard answers, and the information that it leaves with the request.
pub record Answer : Type 0 where
  pub activated : Bool
  pub auth_info : Option AuthInfo

abbrev pub is_success : AuthStatus → Bool
is_success success = true
is_success token_absent = false
is_success token_parse_error = false
is_success verify_failed = false

abbrev pub answer : Bool → AuthInfo → Answer
answer is_skipped auth = record {
  activated = is_skipped || is_success auth.status;
  auth_info = some auth;
}

abbrev pub holds : Result (Option Roles) → Bool
holds (error e) = false
holds (ok none) = false
holds (ok (some roles)) = true

abbrev pub roles_in : Result (Option Roles) → Roles
roles_in (error e) = none
roles_in (ok none) = none
roles_in (ok (some roles)) = roles

-- `canActivate` after `authenticate`.
abbrev pub answered : Bool → Result AuthInfo → Result Answer
answered is_skipped (error e) = error e
answered is_skipped (ok auth) = ok (answer is_skipped auth)

abbrev is_ok : {A : Type 0} → Result A → Bool
is_ok (ok a) = true
is_ok (error e) = false

-- Whether a request goes on, and the roles that its handler finds.
abbrev pub goes_on : Result Answer → Bool
goes_on (error e) = false
goes_on (ok a) = a.activated

abbrev roles_of_info : Option AuthInfo → Roles
roles_of_info none = none
roles_of_info (some auth) = auth.roles

abbrev pub roles_of : Result Answer → Roles
roles_of (error e) = none
roles_of (ok a) = roles_of_info a.auth_info

module _ (decode : String → Result (Option Roles)) (verify : String → Option String → Bool)
    (decode_uri : String → Result String) where
  abbrev pub authenticated : Bool → Option String → Result (Option String) → Result Answer
  authenticated is_skipped certificate (error e) = error e
  authenticated is_skipped certificate (ok t) =
      answered is_skipped (authenticate decode verify certificate t)

  -- `canActivate`, of a request that is of the guard's transport or not, and for which the guard is
  -- skipped or not.
  unfoldable pub can_activate : Bool → Bool → Option String → Headers → Result Answer
  can_activate is_own is_skipped certificate headers =
      if is_own
      then authenticated is_skipped certificate (token decode_uri headers)
      else ok (record { activated = true; auth_info = none })

  -- The JWT library throws nothing for a token that is there.
  abbrev pub is_decodable : Option String → Bool
  is_decodable none = true
  is_decodable (some t) = str_eq t "" || is_ok (decode t)

  -- A token that is there, holds an object and verifies with the certificate.
  abbrev pub is_valid : Option String → Option String → Bool
  is_valid certificate none = false
  is_valid certificate (some t) = not (str_eq t "") && (holds (decode t) && verify t certificate)

  -- The roles that a token gives, if it is valid.
  abbrev pub granted : Option String → Option String → Roles
  granted certificate none = none
  granted certificate (some t) = if is_valid certificate (some t) then roles_in (decode t) else none

  -- An authentication throws exactly if the library does, succeeds exactly if the token is valid, and
  -- has its roles only then.
  abbrev Tells : Bool → Bool → Roles → Result AuthInfo → Type 0
  Tells decodable valid roles (error e) = (decodable ≡ false) × (valid ≡ false)
  Tells decodable valid roles (ok auth) =
      (decodable ≡ true)
      × (is_success auth.status ≡ valid)
      × (auth.roles ≡ (if valid then roles else none))

  decoded-Tells :
      (certificate : Option String) (t : String) (d : Result (Option Roles))
      → Tells
          (is_ok d)
          (holds d && verify t certificate)
          (roles_in d)
          (decoded decode verify t certificate d)
  decoded-Tells certificate t (error e) = (refl, refl)
  decoded-Tells certificate t (ok none) = (refl, refl, refl)
  decoded-Tells certificate t (ok (some roles)) = by_verify (verify t certificate)
    where
      by_verify : (b : Bool) → Tells true b roles (ok (verified decode verify b roles))
      by_verify true = (refl, refl, refl)
      by_verify false = (refl, refl, refl)

  abbrev token_roles : Option String → Roles
  token_roles none = none
  token_roles (some t) = roles_in (decode t)

  authenticate-Tells :
      (certificate t : Option String)
      → Tells
          (is_decodable t)
          (is_valid certificate t)
          (token_roles t)
          (authenticate decode verify certificate t)
  unfolding authenticate
  authenticate-Tells certificate none = (refl, refl, refl)
  authenticate-Tells certificate (some t) = elim (Bool-cases (str_eq t "")) [
    | inl empty ↦ rw empty (refl, refl, refl)
    | inr full ↦ rw full (decoded-Tells certificate t (decode t))
  ]

  -- Whether a request goes on, by what its headers give for a token.
  abbrev pub passes : Bool → Option String → Result (Option String) → Bool
  passes is_skipped certificate (error e) = false
  passes is_skipped certificate (ok t) = is_decodable t && (is_skipped || is_valid certificate t)

  abbrev pub granted_to : Option String → Result (Option String) → Roles
  granted_to certificate (error e) = none
  granted_to certificate (ok t) = granted certificate t

  answered-passes :
      (is_skipped decodable valid : Bool) (roles : Roles) (r : Result AuthInfo)
      → Tells decodable valid roles r
      → (goes_on (answered is_skipped r) ≡ (decodable && (is_skipped || valid)))
        × (roles_of (answered is_skipped r) ≡ (if valid then roles else none))
  answered-passes is_skipped decodable valid roles (error e) (d, v) = rw (d, v) (refl, refl)
  answered-passes is_skipped decodable valid roles (ok auth) (d, v, same) =
      rw (d, ← v) (refl, rw v same)

  granted-if :
      (certificate t : Option String)
      → (if is_valid certificate t then token_roles t else none) ≡ granted certificate t
  granted-if certificate none = refl
  granted-if certificate (some t) = refl

  authenticated-passes :
      (is_skipped : Bool) (certificate : Option String) (r : Result (Option String))
      → (goes_on (authenticated is_skipped certificate r) ≡ passes is_skipped certificate r)
        × (roles_of (authenticated is_skipped certificate r) ≡ granted_to certificate r)
  authenticated-passes is_skipped certificate (error e) = (refl, refl)
  authenticated-passes is_skipped certificate (ok t) =
      let (goes, given) =
        answered-passes is_skipped (is_decodable t) (is_valid certificate t) (token_roles t)
          (authenticate decode verify certificate t) (authenticate-Tells certificate t) in
      (goes, given ∙ granted-if certificate t)

  -- A request of a guard's transport goes on exactly if its headers give a token that is not empty, holds
  -- an object and verifies with the certificate at hand, or if the guard is skipped for it, the headers can
  -- be read, and the JWT library does not throw for a token that is there; it has the roles of that token,
  -- and has none if the token is not valid. A request of another transport goes on without any.
  pub can_activate-passes :
      (is_own is_skipped : Bool) (certificate : Option String) (headers : Headers)
      → let r = can_activate is_own is_skipped certificate headers in
        let t = token decode_uri headers in
        (goes_on r ≡ (not is_own || passes is_skipped certificate t))
        × (roles_of r ≡ (if is_own then granted_to certificate t else none))
  unfolding can_activate
  can_activate-passes true is_skipped certificate headers =
      authenticated-passes is_skipped certificate (token decode_uri headers)
  can_activate-passes false is_skipped certificate headers = (refl, refl)
