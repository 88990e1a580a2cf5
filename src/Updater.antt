-- ===== src/Updater.antt =====
-- updater/resource.go: the versions of a resource, and which of them is selected, blacklisted or purged. A
-- version is known by the address of its record. Of the semantic versions, which are third-party code,
-- `SemVers` has what is called.
pub mod Choice
pub mod Purging
pub mod Blacklisting
mod Tests
use Prim.Native.String.{String}
use text.Mathlib.Text.{◌==◌ as str_eq}
use portbase.Prelude.{
  ℕ, zero, suc, ◌+◌, List, [], ◌∷◌, ◌++◌, Bool, true, false, not, ◌&&◌, ◌||◌, Option, none, some,
  ltb, leb, ◌==◌, if◌then◌else◌, Result, ok, err, panic, length, drop,
}

pub data Error : Type 0 where
  malformed_version last_version version_not_found : Error

-- The functions of go-version that are called; `dev_version` is the version "0".
pub record SemVers (V : Type 0) : Type 0 where
  pub new_version : String → Option V
  pub to_string : V → String
  pub greater_than : V → V → Bool
  pub equal : V → V → Bool
  pub has_prerelease : V → Bool
  pub dev_version : V

pub record ResourceVersion (V : Type 0) : Type 0 where
  pub address : ℕ
  pub version_number : String
  pub sem_ver : V
  pub available : Bool
  pub sig_available : Bool
  pub current_release : Bool
  pub pre_release : Bool
  pub blacklisted : Bool

pub record Registry : Type 0 where
  pub online : Bool
  pub dev_mode : Bool
  pub use_pre_releases : Bool

-- `index` says of the resource's index whether it downloads by itself. `upgradeable` are the notifiers
-- that were told of a newer version.
pub record Resource (V : Type 0) : Type 0 where
  pub registry : Registry
  pub notifier : Option ℕ
  pub upgradeable : List ℕ
  pub versions : List (ResourceVersion V)
  pub active_version : Option ℕ
  pub selected_version : Option ℕ
  pub verified : Bool
  pub index : Option Bool

-- A pointer's comparison with a version.
abbrev pub is_at : Option ℕ → ℕ → Bool
is_at none a = false
is_at (some b) a = b == a

abbrev pub is_set : Option ℕ → Bool
is_set none = false
is_set (some b) = true

abbrev pub same_version : Option ℕ → Option ℕ → Bool
same_version none none = true
same_version (some a) (some b) = a == b
same_version none (some b) = false
same_version (some a) none = false

abbrev auto_download : Option Bool → Bool
auto_download none = false
auto_download (some auto) = auto

abbrev pub or_else {ℓ} : {A : Type ℓ} → Option A → Option A → Option A
or_else none o = o
or_else (some a) o = some a

abbrev pub only_if {ℓ} : {A : Type ℓ} → Bool → Option A → Option A
only_if true o = o
only_if false o = none

abbrev pub first_where {ℓ} : {A : Type ℓ} → (A → Bool) → List A → Option A
first_where test [] = none
first_where test (x ∷ xs) = if test x then some x else first_where test xs

abbrev pub any_where {ℓ} : {A : Type ℓ} → (A → Bool) → List A → Bool
any_where test [] = false
any_where test (x ∷ xs) = if test x then true else any_where test xs

abbrev pub last_of {ℓ} : {A : Type ℓ} → List A → Option A
last_of [] = none
last_of (x ∷ []) = some x
last_of (x ∷ y ∷ xs) = last_of (y ∷ xs)

abbrev pub head_of {ℓ} : {A : Type ℓ} → List A → Option A
head_of [] = none
head_of (x ∷ xs) = some x

-- The first element that passes, kept if it passes the second test as well.
abbrev pub keep_if {ℓ} : {A : Type ℓ} → (A → Bool) → Option A → Option A
keep_if test none = none
keep_if test (some x) = only_if (test x) (some x)

abbrev pub address_of : {V : Type 0} → Option (ResourceVersion V) → Option ℕ
address_of none = none
address_of (some rv) = some rv.address

module _ {V : Type 0} where
  unfoldable pub is_selectable : Resource V → ResourceVersion V → Bool
  is_selectable res rv =
      if rv.blacklisted
      then false
      else if rv.available
      then true
      else if not res.registry.online
      then false
      else auto_download res.index

  unfoldable pub in_use : Resource V → Bool
  in_use res = is_set res.active_version

  unfoldable pub any_version_available : Resource V → Bool
  any_version_available res = any_where (λ rv. rv.available) res.versions

  -- The deferred part of selectVersion: the notifier of a version in use that is not the selected one.
  abbrev pub notify_with : Option ℕ → Resource V → Resource V
  notify_with none res = res
  notify_with (some n) res =
      if in_use res && not (same_version res.selected_version res.active_version)
      then record res { upgradeable = n ∷ res.upgradeable; notifier = none }
      else res

  unfoldable pub notify : Resource V → Resource V
  notify res = notify_with res.notifier res

module _ {V : Type 0} (sv : SemVers V)
    (sort : List (ResourceVersion V) → List (ResourceVersion V)) where
  -- The five rules of selectVersion on the sorted versions, in their order.
  unfoldable pub dev_release : Resource V → List (ResourceVersion V) → Option (ResourceVersion V)
  dev_release res vs =
      only_if res.registry.dev_mode
        (keep_if (λ rv. sv.equal rv.sem_ver sv.dev_version && rv.available) (last_of vs))

  unfoldable pub current_release_of :
      Resource V → List (ResourceVersion V) → Option (ResourceVersion V)
  current_release_of res vs =
      keep_if (is_selectable res) (first_where (λ rv. rv.current_release) vs)

  unfoldable pub newest : Resource V → List (ResourceVersion V) → Option (ResourceVersion V)
  newest res vs = only_if res.registry.use_pre_releases (first_where (is_selectable res) vs)

  unfoldable pub newest_stable : Resource V → List (ResourceVersion V) → Option (ResourceVersion V)
  newest_stable res vs = first_where (λ rv. not rv.pre_release && is_selectable res rv) vs

  unfoldable pub choose : Resource V → List (ResourceVersion V) → Option (ResourceVersion V)
  choose res vs = or_else (dev_release res vs) (
      or_else (current_release_of res vs)
        (or_else (newest res vs) (or_else (newest_stable res vs) (head_of vs))))

  unfoldable pub select_version : Resource V → Resource V
  select_version res =
      let vs = sort res.versions in
      notify (record res { versions = vs; selected_version = address_of (choose res vs) })

  abbrev pub valid_count : List (ResourceVersion V) → ℕ
  valid_count [] = 0
  valid_count (rv ∷ vs) =
      if sv.equal rv.sem_ver sv.dev_version
      then valid_count vs
      else if not rv.blacklisted
      then suc (valid_count vs)
      else valid_count vs

  -- The first version of that number is blacklisted; `none` if there is not any.
  abbrev pub blacklist_in : String → List (ResourceVersion V) → Option (List (ResourceVersion V))
  blacklist_in version [] = none
  blacklist_in version (rv ∷ vs) =
      if str_eq rv.version_number version
      then some ((record rv { blacklisted = true }) ∷ vs)
      else elim (blacklist_in version vs) [ none ↦ none | some vs' ↦ some (rv ∷ vs') ]

  abbrev pub select_after :
      Resource V → Option (List (ResourceVersion V)) → Result Error (Resource V)
  select_after res none = err version_not_found
  select_after res (some vs) = ok (select_version (record res { versions = vs }))

  unfoldable pub blacklist : String → Resource V → Result Error (Resource V)
  blacklist version res =
      if leb (valid_count res.versions) 1
      then err last_version
      else select_after res (blacklist_in version res.versions)

-- `signed` says of a version number whether its signature file exists; `address` is that of the new record.
module _ {V : Type 0} (sv : SemVers V) (signed : String → Bool) (address : ℕ) where
  abbrev pub unset_current : List (ResourceVersion V) → List (ResourceVersion V)
  unset_current [] = []
  unset_current (rv ∷ vs) = record rv { current_release = false } ∷ unset_current vs

  unfoldable pub set_flags : Resource V → Bool → Bool → Bool → ResourceVersion V → ResourceVersion V
  set_flags res available current_release pre_release rv = record rv {
    available = available || rv.available;
    sig_available = (available && (res.verified && signed rv.version_number)) || rv.sig_available;
    current_release = current_release || rv.current_release;
    pre_release = (pre_release || sv.has_prerelease rv.sem_ver) || rv.pre_release;
  }

  -- The flags set on the first version of that number, or on a new one at the end.
  abbrev pub add_in :
      String
      → (ResourceVersion V → ResourceVersion V)
      → List (ResourceVersion V)
      → Option (List (ResourceVersion V))
  add_in version flags (rv ∷ vs) =
      if str_eq rv.version_number version
      then some (flags rv ∷ vs)
      else elim (add_in version flags vs) [ none ↦ none | some vs' ↦ some (rv ∷ vs') ]
  add_in version flags [] = elim (sv.new_version version) [
    | none ↦ none
    | some v ↦ some (
        flags (record {
          address = address;
          version_number = sv.to_string v;
          sem_ver = v;
          available = false;
          sig_available = false;
          current_release = false;
          pre_release = false;
          blacklisted = false;
        })
        ∷ [])
  ]

  -- The resource after an error too: the flags of the current release are reset before it.
  unfoldable pub add_version : String → Bool → Bool → Bool → Resource V → Resource V × Option Error
  add_version version available current_release pre_release res =
      let vs = if current_release then unset_current res.versions else res.versions in
      elim (add_in version (set_flags res available current_release pre_release) vs) [
        | none ↦ (record res { versions = vs }, some malformed_version)
        | some vs' ↦ (record res { versions = vs' }, none)
      ]

-- The safeguard of the number of extra versions.
abbrev pub at_least_two : ℕ → ℕ
at_least_two keep = if ltb keep 2 then 2 else keep

-- The search for the purge boundary: what was skipped, and the position.
module _ {V : Type 0} where
  abbrev pub next_skipped : Option ℕ → Bool → ResourceVersion V → Bool
  next_skipped pointer skipped rv = is_at pointer rv.address || skipped

  -- 0 where the loop ends without a boundary.
  unfoldable pub boundary_search :
      Option ℕ → Option ℕ → ℕ → ℕ → Bool → Bool → Bool → List (ResourceVersion V) → ℕ
  boundary_search in_use_at selected_at keep_extra i active selected stable [] = 0
  boundary_search in_use_at selected_at keep_extra i active selected stable (rv ∷ vs) =
      let rest =
        boundary_search in_use_at selected_at keep_extra (suc i) (next_skipped in_use_at active rv)
          (next_skipped selected_at selected rv) (not rv.pre_release || stable) vs in
      if (not active && is_set in_use_at) || ((not selected && is_set selected_at) || not stable)
      then rest
      else i + keep_extra

  abbrev pub available_of : List (ResourceVersion V) → List (ResourceVersion V)
  available_of [] = []
  available_of (rv ∷ vs) = if rv.available then rv ∷ available_of vs else available_of vs

  -- The versions from the boundary on, behind the last guard.
  abbrev pub purge_from : ℕ → ℕ → Resource V → Resource V × List (ResourceVersion V)
  purge_from keep_extra boundary res =
      if leb boundary keep_extra || leb (length res.versions) boundary then (res, []) else (
        record res { versions = drop boundary res.versions },
        available_of (drop boundary res.versions),
      )

  -- The resource, and the versions whose files are removed, in order.
  unfoldable pub purge : ℕ → Resource V → Resource V × List (ResourceVersion V)
  purge keep res =
      if any_where (λ rv. rv.blacklisted) res.versions
      then (res, [])
      else purge_from (at_least_two keep)
          (boundary_search res.active_version res.selected_version (at_least_two keep) 0 false false
            false res.versions)
          res
