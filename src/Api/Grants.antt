-- ===== src/Api/Grants.antt =====
-- Who is granted access by authenticateRequest.
use portbase.Prelude.{
  ◌≡◌, ◌⊎◌, inl, inr, refl, sym, ap, ◌∙◌, [], Bool, true, false, Option, none, some, if◌then◌else◌,
  if_inv, if_false, arith,
}
use mathlib.Core.Option.{some-injective}
use portbase.Prelude.Int.{ℤ, pos, negsuc, ltb_ℤ, ◌≤ℤ◌}
use portbase.Api.{
  AuthToken, Handler, Request, Api, Response, refused, granted, Checked, found, no_token, handled,
  not_found, dynamic, not_supported, permit_anyone, permit_user, permit_self, token_of,
  check_header, check_api_key, use_cookie, call_authenticator, check_session_cookie,
  authenticate_externally, or_session, or_cookie, check_auth, is_invalid, eq_ℤ, effective, decide,
  decide_checked, authenticate, required_permission, authenticate_for, authenticate_request,
  map_some,
}
use portbase.Api.Sources.{
  Source, Covers, decide-Covers, refused-≢, map_some_inv, check_auth-Source, granted_inj, anyone,
}

-- What authenticate grants once the token is checked.
decide_checked-Source :
    (r : Request) (api : Api) (q : ℤ) (rm : Bool) (c : Checked × Api) (t : AuthToken)
    → ((tok : AuthToken) → c.0 ≡ found tok → Source r api tok)
    → (decide_checked q rm c).0 ≡ granted t
    → Covers q (effective rm t)
      × ((effective rm t ≡ permit_anyone)
          ⊎ ((tok : AuthToken) × Source r api tok × (effective rm t ≡ effective rm tok)))
unfolding decide_checked
decide_checked-Source r api q rm (handled code, api') t source e = ground arith
decide_checked-Source r api q rm (no_token, api') t source e =
    let (covers, same) = decide-Covers q rm (token_of permit_anyone) t e in
    (covers, inl (same ∙ anyone rm))
decide_checked-Source r api q rm (found tok, api') t source e =
    let (covers, same) = decide-Covers q rm tok t e in (covers, inr (tok, source tok refl, same))

authenticate-Source :
    (r : Request) (api : Api) (q : ℤ) (rm : Bool) (out : Response × Api) (t : AuthToken)
    → authenticate q rm r api ≡ some out
    → out.0 ≡ granted t
    → Covers q (effective rm t)
      × ((effective rm t ≡ permit_anyone)
          ⊎ ((tok : AuthToken) × Source r api tok × (effective rm t ≡ effective rm tok)))
unfolding authenticate
authenticate-Source r api q rm out t e is = elim (if_inv (is_invalid q) e) [
  | inl (wrong, done) ↦
      absurd (refused-≢ (ap (λ (p : Response × Api). p.0) (some-injective _ out done) ∙ is))
  | inr (fine, rest) ↦
      let (c, checked, done) =
        map_some_inv (decide_checked q rm) (check_auth r (ltb_ℤ permit_anyone q) api) out rest in
      decide_checked-Source r api q rm c t
        (λ tok k. check_auth-Source r (ltb_ℤ permit_anyone q) api c tok checked k)
        (ap (λ (p : Response × Api). p.0) done ∙ is)
]

Covers-eq_ℤ : (q : ℤ) → eq_ℤ q permit_anyone ≡ true → Covers q permit_anyone
Covers-eq_ℤ (pos n) e = ground arith
Covers-eq_ℤ (negsuc n) e = ground arith

Covers-dynamic : (q p : ℤ) → Covers (if eq_ℤ q dynamic then permit_anyone else q) p → Covers q p
Covers-dynamic (pos n) (pos k) h = ground arith
Covers-dynamic (pos n) (negsuc k) h = ground arith
Covers-dynamic (negsuc n) (pos k) h = ground arith
Covers-dynamic (negsuc n) (negsuc k) h = ground arith

-- What authenticateRequest grants: the token's permission for the method covers the one that the handler
-- requires, within the valid range, and if it is more than that of anyone, then it is that of a token of
-- the dev mode, of the database bridge, of an API key that is not expired, of a session that is not
-- expired, or of the authenticator.
pub authenticate_request-Source :
    (target : Option Handler) (rm : Bool) (r : Request) (api api' : Api) (t : AuthToken)
    → authenticate_request target rm r api ≡ some (granted t, api')
    → Covers (required_permission target rm) (effective rm t)
      × ((effective rm t ≡ permit_anyone)
          ⊎ ((tok : AuthToken) × Source r api tok × (effective rm t ≡ effective rm tok)))
unfolding authenticate_request authenticate_for
authenticate_request-Source target rm r api api' t e =
    let q = required_permission target rm in
    elim (if_inv (eq_ℤ q not_found) e) [
      | inl (special, out) ↦
          absurd (refused-≢ (ap (λ (p : Response × Api). p.0) (some-injective _ _ out)))
      | inr (_, e2) ↦ elim (if_inv (eq_ℤ q not_supported) e2) [
        | inl (special, out) ↦
            absurd (refused-≢ (ap (λ (p : Response × Api). p.0) (some-injective _ _ out)))
        | inr (_, e3) ↦ elim (if_inv (eq_ℤ q permit_anyone) e3) [
          | inl (open_to_all, out) ↦
              let same : token_of permit_anyone ≡ t =
                granted_inj (ap (λ (p : Response × Api). p.0) (some-injective _ _ out)) in
              rw (sym same, anyone rm) (Covers-eq_ℤ q open_to_all, inl refl)
          | inr (_, e4) ↦
              let (covers, source) =
                authenticate-Source r api (if eq_ℤ q dynamic then permit_anyone else q) rm
                  (granted t, api') t e4 refl in
              (Covers-dynamic q (effective rm t) covers, source)
        ]
      ]
    ]

decide-anyone :
    (q : ℤ) (rm : Bool)
    → permit_user ≤ℤ q
    → q ≤ℤ permit_self
    → decide q rm (token_of permit_anyone) ≡ refused 401
unfolding decide effective is_invalid
decide-anyone (pos n) true low high = ground arith
decide-anyone (pos n) false low high = ground arith
decide-anyone (negsuc n) rm low high = absurd (omega arith)

check_auth-none :
    (r : Request) (ar : Bool) (api : Api)
    → api.dev_mode ≡ false
    → r.from_bridge ≡ false
    → r.authorization ≡ []
    → r.session_cookie ≡ none
    → api.auth_fn ≡ none
    → check_auth r ar api ≡ some (no_token, api)
unfolding check_auth check_api_key check_header or_cookie check_session_cookie use_cookie or_session
    authenticate_externally call_authenticator
check_auth-none r ar api no_dev no_bridge no_header no_cookie no_fn =
    if_false api.dev_mode _ _ no_dev
    ∙ if_false r.from_bridge _ _ no_bridge
    ∙ ap (λ h. map_some (or_cookie r ar api) (check_header r api h)) no_header
    ∙ ap (λ c. some (or_session r ar (use_cookie c api))) no_cookie
    ∙ ap (λ f. some (call_authenticator r ar api f)) no_fn

special_false :
    (q : ℤ)
    → permit_user ≤ℤ q
    → (eq_ℤ q not_found ≡ false)
      × ((eq_ℤ q not_supported ≡ false)
          × ((eq_ℤ q permit_anyone ≡ false) × (eq_ℤ q dynamic ≡ false)))
special_false (pos n) low = ground arith
special_false (negsuc n) low = absurd (omega arith)

in_range : (q : ℤ) → permit_user ≤ℤ q → q ≤ℤ permit_self → is_invalid q ≡ false
unfolding is_invalid
in_range (pos n) low high = ground arith
in_range (negsuc n) low high = absurd (omega arith)

-- A request from outside the dev mode and the bridge, without an Authorization header and a session
-- cookie, gets the code 401 from every handler that requires a permission from user to self, if no
-- authenticator is set; no state is changed.
pub authenticate_request-anonymous :
    (target : Option Handler) (rm : Bool) (r : Request) (api : Api)
    → permit_user ≤ℤ required_permission target rm
    → required_permission target rm ≤ℤ permit_self
    → api.dev_mode ≡ false
    → r.from_bridge ≡ false
    → r.authorization ≡ []
    → r.session_cookie ≡ none
    → api.auth_fn ≡ none
    → authenticate_request target rm r api ≡ some (refused 401, api)
unfolding authenticate_request authenticate_for authenticate decide_checked
authenticate_request-anonymous target rm r api low high no_dev no_bridge no_header no_cookie no_fn =
    let q = required_permission target rm in
    let (a, (b, (c, d))) = special_false q low in
    if_false (eq_ℤ q not_found) _ _ a
    ∙ if_false (eq_ℤ q not_supported) _ _ b
    ∙ if_false (eq_ℤ q permit_anyone) _ _ c
    ∙ ap (λ p. authenticate p rm r api) (if_false (eq_ℤ q dynamic) _ _ d)
    ∙ if_false (is_invalid q) _ _ (in_range q low high)
    ∙ ap (map_some (decide_checked q rm))
        (check_auth-none r _ api no_dev no_bridge no_header no_cookie no_fn)
    ∙ ap (λ x. some (x, api)) (decide-anyone q rm low high)
