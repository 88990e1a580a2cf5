-- ===== src/Api/Tests.antt =====
-- A request with an API key, one without credentials, and keys of a configuration.
use portbase.Prelude.{
  ℕ, ◌≡◌, ◌⊎◌, refl, List, [], ◌∷◌, ◌++◌, true, false, Option, none, some, arith,
}
use portbase.Api.{
  AuthToken, Handler, Request, Api, refused, granted, permit_anyone, permit_user, permit_admin,
  required_permission, effective, authenticate_request, authenticate_for, authenticate, is_invalid,
  check_auth, check_api_key, check_header, request_key, key_in, look_up_key, known_key, key_expired,
  or_cookie, decide_checked, decide, bearer,
}
use portbase.Api.Sources.{Source, Covers}
use portbase.Api.Grants.{authenticate_request-Source, authenticate_request-anonymous}
use portbase.Api.Keys.{
  ConfiguredKey, update_api_keys, import_all, import_parsed, with_path, with_permissions,
  with_expiry, parse_api_permission, IsLimited, update_api_keys-IsLimited, check_api_key_panics,
}

abbrev key : List ℕ
key = 1 ∷ 2 ∷ []

abbrev user_token : AuthToken
user_token = record { read = permit_admin; write = permit_user; valid_until = some 50 }

abbrev api : Api
api = record {
  dev_mode = false;
  bridge_permission = permit_anyone;
  api_keys = (key, user_token) ∷ [];
  sessions = [];
  auth_fn = none;
  session_key = none;
  now = 20;
}

abbrev request : List ℕ → Request
request header = record {
  from_bridge = false;
  authorization = header;
  basic_auth = ([], []);
  session_cookie = none;
}

abbrev handler : Handler
handler = record { read_permission = permit_user; write_permission = permit_admin }

abbrev copy : AuthToken
copy = record { read = permit_admin; write = permit_user; valid_until = none }

reads :
    authenticate_request (some handler) true (request (bearer ++ key)) api
    ≡ some (granted copy, api)
unfolding authenticate_request authenticate_for authenticate required_permission is_invalid
    check_auth check_api_key check_header request_key key_in look_up_key known_key key_expired
    or_cookie decide_checked decide effective
reads = refl

writes :
    authenticate_request (some handler) false (request (bearer ++ key)) api
    ≡ some (refused 403, api)
unfolding authenticate_request authenticate_for authenticate required_permission is_invalid
    check_auth check_api_key check_header request_key key_in look_up_key known_key key_expired
    or_cookie decide_checked decide effective
writes = refl

authenticate_request-Source_example :
    Covers (required_permission (some handler) true) (effective true copy)
    × ((effective true copy ≡ permit_anyone)
        ⊎ ((tok : AuthToken) × Source (request (bearer ++ key)) api tok
            × (effective true copy ≡ effective true tok)))
authenticate_request-Source_example =
    authenticate_request-Source (some handler) true (request (bearer ++ key)) api api copy reads

authenticate_request-anonymous_example :
    authenticate_request (some handler) true (request []) api ≡ some (refused 401, api)
unfolding required_permission
authenticate_request-anonymous_example =
    authenticate_request-anonymous (some handler) true (request []) api (omega arith) (omega arith)
      refl refl refl refl refl

check_api_key_panics_example : check_api_key (request (bearer ++ (7 ∷ []))) api ≡ none
check_api_key_panics_example =
    check_api_key_panics (request (bearer ++ (7 ∷ []))) api (7 ∷ []) refl refl (omega arith)

-- Every key is "k", for reading as a user.
abbrev parse_any : List ℕ → Option ConfiguredKey
parse_any s =
    some (record {
      path = b'k' ∷ [];
      read = b'u' ∷ b's' ∷ b'e' ∷ b'r' ∷ [];
      write = [];
      expires = none;
    })

abbrev imported_token : AuthToken
imported_token = record { read = permit_user; write = permit_anyone; valid_until = none }

update_api_keys-IsLimited_example : IsLimited 20 imported_token
unfolding update_api_keys import_all import_parsed with_path with_permissions with_expiry
    parse_api_permission
update_api_keys-IsLimited_example =
    update_api_keys-IsLimited (λ s. s) parse_any (key ∷ []) api (b'k' ∷ []) imported_token refl
