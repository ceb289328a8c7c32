-- ===== src/Auth.antt =====
-- Authentication: `AuthService` of src/modules/auth/services/auth.service.ts. The JWT library is given by what
-- it makes of a token and a certificate: `decode` gives the roles of the object that the token holds, nothing for
-- a token that it cannot read, or an error where the library's function throws, as for a payload that is no JSON;
-- `verify` tells whether the library's function does not throw. Log entries are left out.
use demo_hybrid_microservice.Common.{
  String, Bool, true, false, not, List, [], ◌∷◌, Option, none, some, if◌then◌else◌, str_eq, Result,
  ok, error,
}
pub mod Token
pub mod Guards

pub data AuthStatus : Type 0 where
  success token_absent token_parse_error verify_failed : AuthStatus

abbrev pub Roles : Type 0
Roles = Option (List String)

-- `IAuthInfo`
pub record AuthInfo : Type 0 where
  pub status : AuthStatus
  pub roles : Roles

abbrev pub without_roles : AuthStatus → AuthInfo
without_roles status = record { status = status; roles = none }

module _ (decode : String → Result (Option Roles)) (verify : String → Option String → Bool) where
  abbrev pub verified : Bool → Roles → AuthInfo
  verified true roles = record { status = success; roles = roles }
  verified false roles = without_roles verify_failed

  abbrev pub decoded : String → Option String → Result (Option Roles) → Result AuthInfo
  decoded token certificate (error e) = error e
  decoded token certificate (ok none) = ok (without_roles token_parse_error)
  decoded token certificate (ok (some roles)) = ok (verified (verify token certificate) roles)

  -- `authenticate`, by the certificate at hand. What `decode` throws is not caught.
  unfoldable pub authenticate : Option String → Option String → Result AuthInfo
  authenticate certificate none = ok (without_roles token_absent)
  authenticate certificate (some token) =
      if str_eq token ""
      then ok (without_roles token_absent)
      else decoded token certificate (decode token)

-- Where `certs` is: it waits for the certificate service, or for its timer, or is over.
pub data Phase : Type 0 where
  getting sleeping over : Phase

-- The service's certificate, where `certs` is, whether it was called by the timer, and whether
-- `onModuleInit` was rejected.
pub record Service : Type 0 where
  pub certificate : Option String
  pub phase : Phase
  pub repeated : Bool
  pub rejected : Bool

abbrev pub on_module_init : Service
on_module_init = record { certificate = none; phase = getting; repeated = false; rejected = false }

-- The promise of `getCert` ends with a certificate or an error, or the timer fires.
pub data Event : Type 0 where
  got : String → Event
  failed : Event
  fires : Event

abbrev pub keep_certificate : String → Service → Service
keep_certificate cert s = record s {
  certificate = some cert;
  phase = if str_eq cert "" then sleeping else over;
}

-- The error goes to `onModuleInit`, or to the handler that the timer's call has.
abbrev pub certs_fail : Bool → Service → Service
certs_fail false s = record s { phase = over; rejected = true }
certs_fail true s = record s { phase = over; certificate = none }

abbrev pub certs : Phase → Event → Service → Service
certs getting (got cert) s = keep_certificate cert s
certs getting failed s = certs_fail s.repeated s
certs getting fires s = s
certs sleeping fires s = record s { phase = getting; repeated = true }
certs sleeping (got cert) s = s
certs sleeping failed s = s
certs over e s = s

unfoldable pub run : List Event → Service → Service
run [] s = s
run (e ∷ es) s = run es (certs s.phase e s)

-- `synchronized`
abbrev pub synchronized : Service → Bool
synchronized s = is_there s.certificate
  where
    is_there : Option String → Bool
    is_there none = false
    is_there (some cert) = true
