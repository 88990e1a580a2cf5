-- ===== src/Api/Keys.antt =====
-- api/authentication.go: the API keys of the configuration. What url.Parse, strings.ToLower and time.Parse
-- do is an argument.
use portbase.Prelude.{
  ℕ, ◌<◌, ◌≡◌, ◌≢◌, refl, sym, ap, ◌∙◌, List, [], ◌∷◌, Bool, true, false, Option, none, some, ltb,
  if◌then◌else◌, inl, inr, if_inv, length, ◌++◌, arith, lt→ltb,
}
use mathlib.Core.Option.{some-injective, none-ne-some}
use portbase.Prelude.Int.{ℤ, ◌≤ℤ◌}
use portbase.Prelude.Dict.{Dict, lookup, insert, same, lookup-insert}
use portbase.Api.{
  AuthToken, Request, Api, permit_anyone, permit_user, permit_admin, request_key, key_in,
  check_header, check_api_key, look_up_key, known_key, key_expired, bearer,
}

-- The path of a configured key, its query values, and the time that "expires" stands for: none if it is
-- not set, and `some none` if it cannot be parsed.
pub record ConfiguredKey : Type 0 where
  pub path : List ℕ
  pub read : List ℕ
  pub write : List ℕ
  pub expires : Option (Option ℕ)

abbrev user_name : List ℕ
user_name = b'u' ∷ b's' ∷ b'e' ∷ b'r' ∷ []

abbrev admin_name : List ℕ
admin_name = b'a' ∷ b'd' ∷ b'm' ∷ b'i' ∷ b'n' ∷ []

abbrev anyone_name : List ℕ
anyone_name = b'a' ∷ b'n' ∷ b'y' ∷ b'o' ∷ b'n' ∷ b'e' ∷ []

-- What a configured key makes of the state: an entry, nothing, or nothing and that it is expired.
pub data Import : Type 0 where
  imported : List ℕ → AuthToken → Import
  malformed outdated : Import

pub record Imports : Type 0 where
  pub keys : Dict AuthToken
  pub has_expired_keys : Bool
  pub valid_api_keys : List (List ℕ)

module _ (to_lower : List ℕ → List ℕ) (parse_url : List ℕ → Option ConfiguredKey) where
  unfoldable pub parse_api_permission : List ℕ → Option ℤ
  parse_api_permission s =
      if same (to_lower s) []
      then some permit_anyone
      else if same (to_lower s) anyone_name
      then some permit_anyone
      else if same (to_lower s) user_name
      then some permit_user
      else if same (to_lower s) admin_name
      then some permit_admin
      else none

  unfoldable pub with_expiry : ℕ → List ℕ → ℤ → ℤ → Option (Option ℕ) → Import
  with_expiry now path read write none =
      imported path (record { read = read; write = write; valid_until = none })
  with_expiry now path read write (some none) = malformed
  with_expiry now path read write (some (some until)) =
      if ltb until now
      then outdated
      else imported path (record { read = read; write = write; valid_until = some until })

  unfoldable pub with_permissions : ℕ → ConfiguredKey → Option ℤ → Option ℤ → Import
  with_permissions now k none write = malformed
  with_permissions now k (some read) none = malformed
  with_permissions now k (some read) (some write) = with_expiry now k.path read write k.expires

  unfoldable pub with_path : ℕ → ConfiguredKey → List ℕ → Import
  with_path now k [] = malformed
  with_path now k (_ ∷ _) =
      with_permissions now k (parse_api_permission k.read) (parse_api_permission k.write)

  unfoldable pub import_parsed : ℕ → Option ConfiguredKey → Import
  import_parsed now none = malformed
  import_parsed now (some k) = with_path now k k.path

  abbrev pub add_import : List ℕ → Import → Imports → Imports
  add_import key (imported path token) i = record i {
    keys = insert path token i.keys;
    valid_api_keys = i.valid_api_keys ++ (key ∷ []);
  }
  add_import key malformed i = i
  add_import key outdated i = record i { has_expired_keys = true }

  unfoldable pub import_all : ℕ → List (List ℕ) → Imports → Imports
  import_all now [] i = i
  import_all now (key ∷ rest) i =
      import_all now rest (add_import key (import_parsed now (parse_url key)) i)

  abbrev pub no_imports : Imports
  no_imports = record { keys = []; has_expired_keys = false; valid_api_keys = [] }

  -- The new keys, and the setting without the expired ones, if there are any: it is written later.
  unfoldable pub update_api_keys : List (List ℕ) → Api → Api × Option (List (List ℕ))
  update_api_keys configured api =
      let i = import_all api.now configured no_imports in
      (record api { api_keys = i.keys }, if i.has_expired_keys then some i.valid_api_keys else none)

-- From anyone to admin, but not the software itself.
abbrev pub IsThirdParty : ℤ → Type 0
IsThirdParty p = (permit_anyone ≤ℤ p) × (p ≤ℤ permit_admin)

-- A token that a configured key may stand for.
abbrev pub IsLimited : ℕ → AuthToken → Type 0
IsLimited now t = IsThirdParty t.read × (IsThirdParty t.write × (key_expired now t ≡ false))

abbrev AllLimited : ℕ → Dict AuthToken → Type 0
AllLimited now keys = (k : List ℕ) (t : AuthToken) → lookup k keys ≡ some t → IsLimited now t

imported_inj : {p q : List ℕ} {a b : AuthToken} → imported p a ≡ imported q b → a ≡ b
imported_inj e = ground arith

outdated-≢ : {p : List ℕ} {a : AuthToken} → outdated ≢ imported p a
outdated-≢ e = ground arith

malformed-≢ : {p : List ℕ} {a : AuthToken} → malformed ≢ imported p a
malformed-≢ e = ground arith

module _ (to_lower : List ℕ → List ℕ) (parse_url : List ℕ → Option ConfiguredKey) where
  parse_api_permission-IsThirdParty :
      (s : List ℕ) (p : ℤ) → parse_api_permission to_lower parse_url s ≡ some p → IsThirdParty p
  unfolding parse_api_permission
  parse_api_permission-IsThirdParty s p e = elim (if_inv (same (to_lower s) []) e) [
    | inl (_, is) ↦ rw⁻¹ (some-injective _ p is) (omega arith, omega arith)
    | inr (_, e2) ↦ elim (if_inv (same (to_lower s) anyone_name) e2) [
      | inl (_, is) ↦ rw⁻¹ (some-injective _ p is) (omega arith, omega arith)
      | inr (_, e3) ↦ elim (if_inv (same (to_lower s) user_name) e3) [
        | inl (_, is) ↦ rw⁻¹ (some-injective _ p is) (omega arith, omega arith)
        | inr (_, e4) ↦ elim (if_inv (same (to_lower s) admin_name) e4) [
          | inl (_, is) ↦ rw⁻¹ (some-injective _ p is) (omega arith, omega arith)
          | inr (_, nothing) ↦ absurd (none-ne-some p nothing)
        ]
      ]
    ]
  ]

  AllLimited-insert :
      (now : ℕ) (path : List ℕ) (token : AuthToken) (keys : Dict AuthToken)
      → IsLimited now token
      → AllLimited now keys
      → AllLimited now (insert path token keys)
  AllLimited-insert now path token keys new old k t e =
      elim (if_inv (same path k) (sym (lookup-insert path k token keys) ∙ e)) [
        | inl (_, is) ↦ rw⁻¹ (some-injective token t is) new
        | inr (_, before) ↦ old k t before
      ]

  -- What is imported is limited.
  with_expiry-IsLimited :
      (now : ℕ) (path path' : List ℕ) (read write : ℤ) (e : Option (Option ℕ)) (t : AuthToken)
      → IsThirdParty read
      → IsThirdParty write
      → with_expiry to_lower parse_url now path read write e ≡ imported path' t
      → IsLimited now t
  unfolding with_expiry key_expired
  with_expiry-IsLimited now path path' read write none t r w is =
      rw⁻¹ (imported_inj is) (r, (w, refl))
  with_expiry-IsLimited now path path' read write (some none) t r w is = ground arith
  with_expiry-IsLimited now path path' read write (some (some until)) t r w is =
      elim (if_inv (ltb until now) is) [
        | inl (_, out) ↦ absurd (outdated-≢ out)
        | inr (live, out) ↦ rw⁻¹ (imported_inj out) (r, (w, live))
      ]

  with_permissions-IsLimited :
      (now : ℕ) (k : ConfiguredKey) (read write : Option ℤ) (path : List ℕ) (t : AuthToken)
      → ((p : ℤ) → read ≡ some p → IsThirdParty p)
      → ((p : ℤ) → write ≡ some p → IsThirdParty p)
      → with_permissions to_lower parse_url now k read write ≡ imported path t
      → IsLimited now t
  unfolding with_permissions
  with_permissions-IsLimited now k none write path t r w is = ground arith
  with_permissions-IsLimited now k (some read) none path t r w is = ground arith
  with_permissions-IsLimited now k (some read) (some write) path t r w is =
      with_expiry-IsLimited now k.path path read write k.expires t (r read refl) (w write refl) is

  with_path-IsLimited :
      (now : ℕ) (k : ConfiguredKey) (p path : List ℕ) (t : AuthToken)
      → with_path to_lower parse_url now k p ≡ imported path t
      → IsLimited now t
  unfolding with_path
  with_path-IsLimited now k [] path t is = ground arith
  with_path-IsLimited now k (_ ∷ _) path t is =
      with_permissions-IsLimited now k (parse_api_permission to_lower parse_url k.read)
        (parse_api_permission to_lower parse_url k.write) path t
        (parse_api_permission-IsThirdParty k.read) (parse_api_permission-IsThirdParty k.write) is

  import_parsed-IsLimited :
      (now : ℕ) (o : Option ConfiguredKey) (path : List ℕ) (t : AuthToken)
      → import_parsed to_lower parse_url now o ≡ imported path t
      → IsLimited now t
  unfolding import_parsed
  import_parsed-IsLimited now none path t is = ground arith
  import_parsed-IsLimited now (some k) path t is = with_path-IsLimited now k k.path path t is

  add_import-AllLimited :
      (now : ℕ) (key : List ℕ) (m : Import) (i : Imports)
      → ((path : List ℕ) (t : AuthToken) → m ≡ imported path t → IsLimited now t)
      → AllLimited now i.keys
      → AllLimited now (add_import to_lower parse_url key m i).keys
  add_import-AllLimited now key (imported path token) i new old =
      AllLimited-insert now path token i.keys (new path token refl) old
  add_import-AllLimited now key malformed i new old = old
  add_import-AllLimited now key outdated i new old = old

  import_all-AllLimited :
      (now : ℕ) (configured : List (List ℕ)) (i : Imports)
      → AllLimited now i.keys
      → AllLimited now (import_all to_lower parse_url now configured i).keys
  unfolding import_all
  import_all-AllLimited now [] i h = h
  import_all-AllLimited now (key ∷ rest) i h =
      import_all-AllLimited now rest
        (add_import to_lower parse_url key (import_parsed to_lower parse_url now (parse_url key)) i)
        (add_import-AllLimited now key (import_parsed to_lower parse_url now (parse_url key)) i
          (λ path t e. import_parsed-IsLimited now (parse_url key) path t e) h)

  -- Whatever is configured, every API key that updateAPIKeys leaves has a read and a write permission from
  -- anyone to admin, never that of the software itself, and is not expired at that time.
  pub update_api_keys-IsLimited :
      (configured : List (List ℕ)) (api : Api) (k : List ℕ) (t : AuthToken)
      → lookup k (update_api_keys to_lower parse_url configured api).0.api_keys ≡ some t
      → IsLimited api.now t
  unfolding update_api_keys
  update_api_keys-IsLimited configured api k t e =
      import_all-AllLimited api.now configured (no_imports to_lower parse_url)
        (λ j u q. absurd (none-ne-some u q)) k t e

-- A Bearer key that is not known and shorter than four bytes makes checkAPIKey panic, where it logs the
-- start of the key.
pub check_api_key_panics :
    (r : Request) (api : Api) (key : List ℕ)
    → r.authorization ≡ bearer ++ key
    → lookup key api.api_keys ≡ none
    → length key < 4
    → check_api_key r api ≡ none
unfolding check_api_key check_header request_key key_in look_up_key known_key
check_api_key_panics r api key header unknown short =
    ap (check_header r api) header
    ∙ ap (λ h. look_up_key api (key_in h r.basic_auth)) header
    ∙ ap (known_key api.now key) unknown
    ∙ rw (lt→ltb (length key) 4 short) refl
