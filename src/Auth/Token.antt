-- ===== src/Auth/Token.antt =====
-- `HttpAuthHelper.token` of src/modules/http/http-common/helpers/http.auth.helper.ts. What
-- `decodeURIComponent` makes of a text, or that it throws, is a parameter.
use Prim.Native.Char.{code}
use Prim.Native.String.{len, slice}
use package.text.Mathlib.Text.{starts_with}
use demo_hybrid_microservice.Common.{
  ℕ, String, Bool, ◌||◌, ◌&&◌, [], ◌∷◌, Option, none, some, if◌then◌else◌, ◌==◌, leb, str_eq,
  Result, ok, error,
}
use demo_hybrid_microservice.Headers.{Header, Headers, text, texts, nothing_found, search_value}

-- The white space of `trim`.
abbrev pub is_space : ℕ → Bool
is_space n =
    leb 9 n && leb n 13
    || n == 32
    || n == 160
    || n == 5760
    || leb 8192 n && leb n 8202
    || n == 8232
    || n == 8233
    || n == 8239
    || n == 8287
    || n == 12288
    || n == 65279

unfoldable pub trim_start : String → String
trim_start String.[] = ""
trim_start (String.◌∷◌ c s) =
    let rest = trim_start s in if is_space (code c) then rest else String.◌∷◌ c s

unfoldable pub trim_end : String → String
trim_end String.[] = ""
trim_end (String.◌∷◌ c s) =
    let rest = trim_end s in if str_eq rest "" && is_space (code c) then "" else String.◌∷◌ c rest

abbrev pub trim : String → String
trim s = trim_end (trim_start s)

-- The text without as many bytes at its beginning.
abbrev pub drop : ℕ → String → String
drop n s = slice s n (len s)

-- `[^;]*`
unfoldable pub until_semicolon : String → String
until_semicolon String.[] = ""
until_semicolon (String.◌∷◌ c s) =
    let rest = until_semicolon s in if code c == 59 then "" else String.◌∷◌ c rest

-- The group of the first match of `; authorization=([^;]*)`.
unfoldable pub match_later : String → Option String
match_later String.[] = none
match_later (String.◌∷◌ c s) =
    let rest = match_later s in
    if starts_with (String.◌∷◌ c s) "; authorization="
    then some (until_semicolon (drop 16 (String.◌∷◌ c s)))
    else rest

-- The group of the first match of `(?:^|; )authorization=([^;]*)`.
abbrev pub match_cookie : String → Option String
match_cookie s =
    if starts_with s "authorization=" then some (until_semicolon (drop 14 s)) else match_later s

-- A value of `searchValue` that is a string and not empty.
abbrev pub as_text : Option Header → Option String
as_text none = none
as_text (some (text s)) = if str_eq s "" then none else some s
as_text (some (texts ss)) = none

abbrev pub find_text : Headers → String → Option String
find_text headers name = as_text (search_value headers nothing_found (name ∷ [])).value

-- `rawTokenStr`, unless it is empty.
abbrev pub trimmed : Option String → Option String
trimmed none = none
trimmed (some s) = if str_eq (trim s) "" then none else some (trim s)

abbrev pub without_bearer : String → String
without_bearer s = if starts_with s "Bearer " then trim (drop 7 s) else s

abbrev pub finish_token : Option String → Option String
finish_token none = none
finish_token (some s) = some (without_bearer s)

module _ (decode_uri : String → Result String) where
  abbrev pub decode_match : Option String → Result (Option String)
  decode_match none = ok none
  decode_match (some s) = if str_eq s "" then ok none else trim_result (decode_uri s)
    where
      trim_result : Result String → Result (Option String)
      trim_result (ok s) = ok (trimmed (some s))
      trim_result (error e) = error e

  abbrev pub match_text : Option String → Result (Option String)
  match_text none = ok none
  match_text (some cookie) = decode_match (match_cookie cookie)

  abbrev pub or_cookie : Option String → Headers → Result (Option String)
  or_cookie (some raw) headers = ok (some raw)
  or_cookie none headers = match_text (find_text headers "cookie")

  abbrev pub finish_result : Result (Option String) → Result (Option String)
  finish_result (ok raw) = ok (finish_token raw)
  finish_result (error e) = error e

  -- `token`
  unfoldable pub token : Headers → Result (Option String)
  token headers = finish_result (or_cookie (trimmed (find_text headers "authorization")) headers)
