-- ===== src/Api/Sources.antt =====
-- Where the token comes from that authenticateRequest decides about.
use portbase.Prelude.{
  ℕ, ◌≡◌, inl, inr, refl, sym, ap, ◌∙◌, List, [], ◌∷◌, Bool, true, false, Option, none, some,
  Bool-cases, if_inv, ◌≢◌, arith,
}
use mathlib.Core.Option.{some-injective, none-ne-some}
use portbase.Prelude.Int.{ℤ, ◌≤ℤ◌}
use portbase.Prelude.Dict.{lookup}
use portbase.Api.{
  AuthToken, Session, Request, Api, Authentication, fails, denies, returns, refused, granted,
  Checked, found, permit_anyone, permit_self, token_of, expired, request_key, key_expired,
  known_key, look_up_key, check_header, check_api_key, use_session, use_cookie, call_authenticator,
  check_session_cookie, ask, authenticate_externally, or_session, or_cookie, check_auth, is_invalid,
  effective, decide, map_some,
}

-- The ways to be more than anyone.
pub data Source (r : Request) (api : Api) : AuthToken → Type 0 where
  by_dev_mode : api.dev_mode ≡ true → Source r api (token_of permit_self)
  by_bridge : r.from_bridge ≡ true → Source r api (token_of api.bridge_permission)
  by_key :
      (k : List ℕ) (t : AuthToken)
      → request_key r ≡ some k
      → lookup k api.api_keys ≡ some t
      → key_expired api.now t ≡ false
      → Source r api t
  by_session :
      (k : List ℕ) (s : Session)
      → r.session_cookie ≡ some k
      → lookup k api.sessions ≡ some s
      → expired api.now s ≡ false
      → Source r api s.token
  by_authenticator :
      (fn : Request → Authentication) (t : AuthToken)
      → api.auth_fn ≡ some fn
      → fn r ≡ returns (some t)
      → Source r api t

-- A token that is within the range and covers what is required.
abbrev pub Covers : ℤ → ℤ → Type 0
Covers required p = (permit_anyone ≤ℤ p) × ((p ≤ℤ permit_self) × (required ≤ℤ p))

pub decide-Covers :
    (q : ℤ) (rm : Bool) (tok t : AuthToken)
    → decide q rm tok ≡ granted t
    → Covers q (effective rm t) × (effective rm t ≡ effective rm tok)
unfolding decide effective is_invalid
decide-Covers q true tok t e = ground arith
decide-Covers q false tok t e = ground arith

known_key_inv :
    (now : ℕ) (k : List ℕ) (o : Option AuthToken) (t : AuthToken)
    → known_key now k o ≡ some (some t)
    → (o ≡ some t) × (key_expired now t ≡ false)
unfolding known_key
known_key_inv now k none t e = ground arith
known_key_inv now k (some tok) t e = elim (Bool-cases (key_expired now tok)) [
  | inl old ↦ absurd (none-ne-some t (some-injective _ _ (rw old at e)))
  | inr live ↦
      let is = some-injective tok t (some-injective _ _ (rw live at e)) in rw⁻¹ is (refl, live)
]

-- The key that is looked up, with what is known of it.
look_up_key_inv :
    (api : Api) (ko : Option (List ℕ)) (t : AuthToken)
    → look_up_key api ko ≡ some (some t)
    → (k : List ℕ) × (ko ≡ some k)
      × ((lookup k api.api_keys ≡ some t) × (key_expired api.now t ≡ false))
unfolding look_up_key
look_up_key_inv api none t e = absurd (none-ne-some t (some-injective _ _ e))
look_up_key_inv api (some k) t e = (k, refl, known_key_inv api.now k (lookup k api.api_keys) t e)

check_header-by_key :
    (r : Request) (api : Api) (header : List ℕ) (t : AuthToken)
    → check_header r api header ≡ some (some t)
    → Source r api t
unfolding check_header
check_header-by_key r api [] t e = absurd (none-ne-some t (some-injective _ _ e))
check_header-by_key r api (_ ∷ _) t e =
    let (k, asked, (known, live)) = look_up_key_inv api (request_key r) t e in
    by_key k t asked known live

use_session_inv :
    (k : List ℕ) (o : Option Session) (api : Api) (t : AuthToken)
    → (use_session k o api).0 ≡ some t
    → (s : Session) × (o ≡ some s) × ((s.token ≡ t) × (expired api.now s ≡ false))
unfolding use_session
use_session_inv k none api t e = absurd (none-ne-some t e)
use_session_inv k (some s) api t e = elim (Bool-cases (expired api.now s)) [
  | inl old ↦ absurd (none-ne-some t (rw old at e))
  | inr live ↦ (s, refl, (some-injective s.token t (rw live at e), live))
]

use_cookie-by_session :
    (r : Request) (api : Api) (cookie : Option (List ℕ)) (t : AuthToken)
    → r.session_cookie ≡ cookie
    → (use_cookie cookie api).0 ≡ some t
    → Source r api t
unfolding use_cookie
use_cookie-by_session r api none t is e = absurd (none-ne-some t e)
use_cookie-by_session r api (some k) t is e =
    let (s, known, (same, live)) = use_session_inv k (lookup k api.sessions) api t e in
    rw⁻¹ same (by_session k s is known live)

use_session_kept :
    (k : List ℕ) (o : Option Session) (api : Api)
    → (use_session k o api).0 ≡ none
    → (use_session k o api).1 ≡ api
unfolding use_session
use_session_kept k none api e = refl
use_session_kept k (some s) api e = elim (Bool-cases (expired api.now s)) [
  | inl old ↦ rw old refl
  | inr live ↦ absurd (none-ne-some s.token (sym (rw live at e)))
]

use_cookie_kept :
    (cookie : Option (List ℕ)) (api : Api)
    → (use_cookie cookie api).0 ≡ none
    → (use_cookie cookie api).1 ≡ api
unfolding use_cookie
use_cookie_kept none api e = refl
use_cookie_kept (some k) api e = use_session_kept k (lookup k api.sessions) api e

ask_inv :
    (ar : Bool) (a : Authentication) (api : Api) (tok : AuthToken)
    → (ask ar a api).0 ≡ found tok
    → a ≡ returns (some tok)
unfolding ask
ask_inv true fails api tok e = ground arith
ask_inv false fails api tok e = ground arith
ask_inv true denies api tok e = ground arith
ask_inv false denies api tok e = ground arith
ask_inv ar (returns none) api tok e = ground arith
ask_inv ar (returns (some t)) api tok e = ground arith

call_authenticator-by_authenticator :
    (r : Request) (ar : Bool) (api : Api) (fo : Option (Request → Authentication)) (tok : AuthToken)
    → api.auth_fn ≡ fo
    → (call_authenticator r ar api fo).0 ≡ found tok
    → Source r api tok
unfolding call_authenticator
call_authenticator-by_authenticator r ar api none tok is e = ground arith
call_authenticator-by_authenticator r ar api (some fn) tok is e =
    by_authenticator fn tok is (ask_inv ar (fn r) api tok e)

or_session-Source :
    (r : Request) (ar : Bool) (api : Api) (p : Option AuthToken × Api) (tok : AuthToken)
    → ((t : AuthToken) → p.0 ≡ some t → Source r api t)
    → (p.0 ≡ none → p.1 ≡ api)
    → (or_session r ar p).0 ≡ found tok
    → Source r api tok
unfolding or_session authenticate_externally
or_session-Source r ar api (some t, api') tok session kept e =
    let is : t ≡ tok = ground arith in rw⁻¹ is (session t refl)
or_session-Source r ar api (none, api') tok session kept e =
    call_authenticator-by_authenticator r ar api api.auth_fn tok refl (rw (kept refl) at e)

or_cookie-Source :
    (r : Request) (ar : Bool) (api : Api) (o : Option AuthToken) (tok : AuthToken)
    → check_api_key r api ≡ some o
    → (or_cookie r ar api o).0 ≡ found tok
    → Source r api tok
unfolding or_cookie check_api_key check_session_cookie
or_cookie-Source r ar api (some t) tok key e =
    let is : t ≡ tok = ground arith in rw⁻¹ is (check_header-by_key r api r.authorization t key)
or_cookie-Source r ar api none tok key e =
    or_session-Source r ar api (use_cookie r.session_cookie api) tok
      (λ t q. use_cookie-by_session r api r.session_cookie t refl q)
      (use_cookie_kept r.session_cookie api) e

pub map_some_inv {ℓ κ} :
    {A : Type ℓ} {B : Type κ} (f : A → B) (o : Option A) (b : B)
    → map_some f o ≡ some b
    → (a : A) × (o ≡ some a) × (f a ≡ b)
map_some_inv f none b e = absurd (none-ne-some b e)
map_some_inv f (some a) b e = (a, refl, some-injective (f a) b e)

by_header :
    (r : Request) (ar : Bool) (api : Api) (c : Checked × Api) (tok : AuthToken)
    → map_some (or_cookie r ar api) (check_api_key r api) ≡ some c
    → c.0 ≡ found tok
    → Source r api tok
by_header r ar api c tok e is =
    let (o, key, out) = map_some_inv (or_cookie r ar api) (check_api_key r api) c e in
    or_cookie-Source r ar api o tok key (ap (λ (p : Checked × Api). p.0) out ∙ is)

found_inj : {a b : AuthToken} → found a ≡ found b → a ≡ b
found_inj e = ground arith

pub granted_inj : {a b : AuthToken} → granted a ≡ granted b → a ≡ b
granted_inj e = ground arith

pub refused-≢ : {code : ℕ} {t : AuthToken} → refused code ≢ granted t
refused-≢ e = ground arith

pub anyone : (rm : Bool) → effective rm (token_of permit_anyone) ≡ permit_anyone
unfolding effective
anyone true = refl
anyone false = refl

pub check_auth-Source :
    (r : Request) (ar : Bool) (api : Api) (c : Checked × Api) (tok : AuthToken)
    → check_auth r ar api ≡ some c
    → c.0 ≡ found tok
    → Source r api tok
unfolding check_auth
check_auth-Source r ar api c tok e is = elim (if_inv api.dev_mode e) [
  | inl (dev, out) ↦
      let same : token_of permit_self ≡ tok =
        found_inj (ap (λ (p : Checked × Api). p.0) (some-injective _ c out) ∙ is) in
      rw⁻¹ same (by_dev_mode dev)
  | inr (no_dev, rest) ↦ elim (if_inv r.from_bridge rest) [
    | inl (bridge, out) ↦
        let same : token_of api.bridge_permission ≡ tok =
          found_inj (ap (λ (p : Checked × Api). p.0) (some-injective _ c out) ∙ is) in
        rw⁻¹ same (by_bridge bridge)
    | inr (no_bridge, out) ↦ by_header r ar api c tok out is
  ]
]
