-- ===== src/Api.antt =====
-- api/authentication.go: the permission of a request. A time is a number, a string its bytes. A handler
-- returns `none` for a panic, else the response and the new state.
pub mod Sources
pub mod Grants
pub mod Keys
mod Tests
use portbase.Prelude.{
  ℕ, ◌+◌, List, [], ◌∷◌, ◌++◌, Bool, true, false, not, ◌&&◌, ◌||◌, Option, none, some, ltb, leb,
  ◌==◌, if◌then◌else◌, length, drop, take,
}
use portbase.Prelude.Int.{ℤ, pos, negsuc, ltb_ℤ}
use portbase.Prelude.Dict.{Dict, lookup, insert, remove, same}

-- Permissions are int8 values.
abbrev pub not_found : ℤ
not_found = negsuc 1

abbrev pub dynamic : ℤ
dynamic = negsuc 0

abbrev pub not_supported : ℤ
not_supported = pos 0

abbrev pub permit_anyone : ℤ
permit_anyone = pos 1

abbrev pub permit_user : ℤ
permit_user = pos 2

abbrev pub permit_admin : ℤ
permit_admin = pos 3

abbrev pub permit_self : ℤ
permit_self = pos 4

pub record AuthToken : Type 0 where
  pub read : ℤ
  pub write : ℤ
  pub valid_until : Option ℕ

abbrev pub token_of : ℤ → AuthToken
token_of p = record { read = p; write = p; valid_until = none }

pub record Session : Type 0 where
  pub token : AuthToken
  pub valid_until : ℕ

-- The permissions that an AuthenticatedHandler asks for, at this request.
pub record Handler : Type 0 where
  pub read_permission : ℤ
  pub write_permission : ℤ

-- What is read of a request. `basic_auth` is what BasicAuth returns, `session_cookie` the cookie of the
-- session's name.
pub record Request : Type 0 where
  pub from_bridge : Bool
  pub authorization : List ℕ
  pub basic_auth : List ℕ × List ℕ
  pub session_cookie : Option (List ℕ)

-- What the function set by SetAuthenticator returns: an error of its own, one that wraps
-- ErrAPIAccessDeniedMessage, or a token or nil.
pub data Authentication : Type 0 where
  fails denies : Authentication
  returns : Option AuthToken → Authentication

-- `session_key` is the key that rng makes for a new session, or its failure; `bridge_permission` is
-- dbCompatibilityPermission.
pub record Api : Type 0 where
  pub dev_mode : Bool
  pub bridge_permission : ℤ
  pub api_keys : Dict AuthToken
  pub sessions : Dict Session
  pub auth_fn : Option (Request → Authentication)
  pub session_key : Option (List ℕ)
  pub now : ℕ

-- A status code of an error response, or the token that the handler gets.
pub data Response : Type 0 where
  refused : ℕ → Response
  granted : AuthToken → Response

abbrev pub session_cookie_ttl : ℕ
session_cookie_ttl = 300000000000

-- Sessions.
pub expired : ℕ → Session → Bool
expired now sess = ltb sess.valid_until now

pub refresh : ℕ → Session → Session
refresh now sess = record sess { valid_until = now + session_cookie_ttl }

pub create_session : AuthToken → Api → Api
create_session token api = elim api.session_key [
  | none ↦ api
  | some key ↦ record api {
    sessions =
        insert key (record { token = token; valid_until = api.now + session_cookie_ttl })
          api.sessions;
  }
]

abbrev clean : ℕ → Dict Session → Dict Session
clean now [] = []
clean now ((key, sess) ∷ rest) =
    let later = clean now rest in if expired now sess then later else (key, sess) ∷ later

pub clean_sessions : Api → Api
clean_sessions api = record api { sessions = clean api.now api.sessions }

pub delete_session : List ℕ → Api → Api
delete_session key api = record api { sessions = remove key api.sessions }

-- The token of a live session, which is refreshed.
pub use_session : List ℕ → Option Session → Api → Option AuthToken × Api
use_session key none api = (none, api)
use_session key (some sess) api =
    if expired api.now sess
    then (none, api)
    else (some sess.token, record api { sessions = insert key (refresh api.now sess) api.sessions })

pub use_cookie : Option (List ℕ) → Api → Option AuthToken × Api
use_cookie none api = (none, api)
use_cookie (some key) api = use_session key (lookup key api.sessions) api

pub check_session_cookie : Request → Api → Option AuthToken × Api
check_session_cookie r api = use_cookie r.session_cookie api

-- Prefixes of the Authorization header.
abbrev pub bearer : List ℕ
bearer = b'B' ∷ b'e' ∷ b'a' ∷ b'r' ∷ b'e' ∷ b'r' ∷ b' ' ∷ []

abbrev pub basic : List ℕ
basic = b'B' ∷ b'a' ∷ b's' ∷ b'i' ∷ b'c' ∷ b' ' ∷ []

abbrev pub has_prefix : List ℕ → List ℕ → Bool
has_prefix s [] = true
has_prefix [] (p ∷ ps) = false
has_prefix (c ∷ s) (p ∷ ps) = if c == p then has_prefix s ps else false

-- The key in the header, if its type is supported.
pub key_in : List ℕ → List ℕ × List ℕ → Option (List ℕ)
key_in header basic_auth =
    if has_prefix header bearer
    then some (drop 7 header)
    else if has_prefix header basic
    then some (basic_auth.0 ++ basic_auth.1)
    else none

pub request_key : Request → Option (List ℕ)
request_key r = key_in r.authorization r.basic_auth

pub key_expired : ℕ → AuthToken → Bool
key_expired now token = elim token.valid_until [ none ↦ false | some until ↦ ltb until now ]

-- An unknown key is logged with its first four bytes; the slice expression panics on a shorter one.
pub known_key : ℕ → List ℕ → Option AuthToken → Option (Option AuthToken)
known_key now key none = if ltb (length key) 4 then none else some none
known_key now key (some token) = some (if key_expired now token then none else some token)

pub look_up_key : Api → Option (List ℕ) → Option (Option AuthToken)
look_up_key api none = some none
look_up_key api (some key) = known_key api.now key (lookup key api.api_keys)

pub check_header : Request → Api → List ℕ → Option (Option AuthToken)
check_header r api [] = some none
check_header r api (_ ∷ _) = look_up_key api (request_key r)

pub check_api_key : Request → Api → Option (Option AuthToken)
check_api_key r api = check_header r api r.authorization

-- The token, or that the response has been written, with its code.
pub data Checked : Type 0 where
  found : AuthToken → Checked
  no_token : Checked
  handled : ℕ → Checked

pub ask : Bool → Authentication → Api → Checked × Api
ask auth_required fails api = (handled 500, api)
ask auth_required denies api = (if auth_required then handled 403 else no_token, api)
ask auth_required (returns none) api = (no_token, api)
ask auth_required (returns (some token)) api = (found token, create_session token api)

pub call_authenticator : Request → Bool → Api → Option (Request → Authentication) → Checked × Api
call_authenticator r auth_required api none = (no_token, api)
call_authenticator r auth_required api (some fn) = ask auth_required (fn r) api

pub authenticate_externally : Request → Bool → Api → Checked × Api
authenticate_externally r auth_required api = call_authenticator r auth_required api api.auth_fn

pub or_session : Request → Bool → Option AuthToken × Api → Checked × Api
or_session r auth_required (some token, api) = (found token, api)
or_session r auth_required (none, api) = authenticate_externally r auth_required api

pub or_cookie : Request → Bool → Api → Option AuthToken → Checked × Api
or_cookie r auth_required api (some token) = (found token, api)
or_cookie r auth_required api none = or_session r auth_required (check_session_cookie r api)

abbrev pub map_some {ℓ κ} : {A : Type ℓ} {B : Type κ} → (A → B) → Option A → Option B
map_some f none = none
map_some f (some a) = some (f a)

pub check_auth : Request → Bool → Api → Option (Checked × Api)
check_auth r auth_required api =
    if api.dev_mode
    then some (found (token_of permit_self), api)
    else if r.from_bridge
    then some (found (token_of api.bridge_permission), api)
    else map_some (or_cookie r auth_required api) (check_api_key r api)

-- permission < PermitAnyone || permission > PermitSelf
pub is_invalid : ℤ → Bool
is_invalid p = ltb_ℤ p permit_anyone || ltb_ℤ permit_self p

abbrev pub eq_ℤ : ℤ → ℤ → Bool
eq_ℤ a b = not (ltb_ℤ a b) && not (ltb_ℤ b a)

-- The permission of a token for the method.
pub effective : Bool → AuthToken → ℤ
effective read_method token = if read_method then token.read else token.write

pub decide : ℤ → Bool → AuthToken → Response
decide required read_method token =
    if is_invalid (effective read_method token)
    then refused 500
    else if ltb_ℤ (effective read_method token) required
    then (if eq_ℤ token.read permit_anyone && eq_ℤ token.write permit_anyone
        then refused 401
        else refused 403)
    else granted (record { read = token.read; write = token.write; valid_until = none })

pub decide_checked : ℤ → Bool → Checked × Api → Response × Api
decide_checked required read_method (handled code, api) = (refused code, api)
decide_checked required read_method (no_token, api) =
    (decide required read_method (token_of permit_anyone), api)
decide_checked required read_method (found token, api) = (decide required read_method token, api)

-- Behind the special permissions.
pub authenticate : ℤ → Bool → Request → Api → Option (Response × Api)
authenticate required read_method r api =
    if is_invalid required
    then some (refused 500, api)
    else map_some (decide_checked required read_method)
        (check_auth r (ltb_ℤ permit_anyone required) api)

pub required_permission : Option Handler → Bool → ℤ
required_permission none read_method = permit_self
required_permission (some h) read_method =
    if read_method then h.read_permission else h.write_permission

pub authenticate_for : ℤ → Bool → Request → Api → Option (Response × Api)
authenticate_for required read_method r api =
    if eq_ℤ required not_found
    then some (refused 404, api)
    else if eq_ℤ required not_supported
    then some (refused 405, api)
    else if eq_ℤ required permit_anyone
    then some (granted (token_of permit_anyone), api)
    else authenticate (if eq_ℤ required dynamic then permit_anyone else required) read_method r api

pub authenticate_request : Option Handler → Bool → Request → Api → Option (Response × Api)
authenticate_request target read_method r api =
    authenticate_for (required_permission target read_method) read_method r api
