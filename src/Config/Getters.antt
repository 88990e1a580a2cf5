-- ===== src/Config/Getters.antt =====
-- config/get.go: the lookup of a value, and the functions that GetAsString, GetAsStringArray, GetAsInt and
-- GetAsBool return. They are one function here, with `read` in place of the field of the type.
pub mod Steps
pub mod Updates
pub mod Freshness
use portbase.Prelude.{
  ℕ, zero, suc, ◌≡◌, refl, List, Bool, true, false, ◌&&◌, Option, none, some, leb, ltb, ◌==◌,
  if◌then◌else◌,
}
use portbase.Prelude.Dict.{Dict, lookup, insert}
use portbase.Config.{Value, OptionType, ValueCache, ConfigOption, same_type, only_if}
use portbase.Config.Changes.{Config, prefer}

-- The value of an option at a release level.
unfoldable pub find_value : ConfigOption → ℕ → Option ValueCache
find_value option level =
    prefer (only_if (leb option.release_level level) option.active_value)
      (prefer option.active_default_value option.active_fallback_value)

abbrev pub value_if_type : OptionType → Option ConfigOption → ℕ → Option ValueCache
value_if_type requested none level = none
value_if_type requested (some option) level =
    if same_type requested option.opt_type then find_value option level else none

unfoldable pub get_value_cache : List ℕ → OptionType → Config → Option ValueCache
get_value_cache name requested c =
    value_if_type requested (lookup name c.options) c.active_release_level

module _ {ℓ} {A : Type ℓ} where
  abbrev pub or_fallback : (ValueCache → A) → A → Option ValueCache → A
  or_fallback read fallback none = fallback
  or_fallback read fallback (some vc) = read vc

-- The variables that a returned function keeps: the flag that it holds, as its number, and the value.
pub record Getter {ℓ} (A : Type ℓ) : Type ℓ where
  pub valid : ℕ
  pub value : A

module _ {ℓ} {A : Type ℓ} (name : List ℕ) (requested : OptionType) (read : ValueCache → A)
    (fallback : A) where
  -- The value that a lookup gives now.
  unfoldable pub current : Config → A
  current c = or_fallback read fallback (get_value_cache name requested c)

  unfoldable pub get_as : Config → Getter A
  get_as c = record { valid = c.validity; value = current c }

  unfoldable pub refreshed : Getter A → Config → Getter A
  refreshed g c = if g.valid == c.validity then g else get_as c

  -- A call gives the value and leaves the variables.
  unfoldable pub call : Getter A → Config → A × Getter A
  call g c = ((refreshed g c).value, refreshed g c)
