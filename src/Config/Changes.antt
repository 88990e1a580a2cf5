-- ===== src/Config/Changes.antt =====
-- config/set.go, release.go, expertise.go and registry.go: the state of the configuration and its changes.
use portbase.Prelude.{
  ℕ, suc, ◌+◌, List, [], ◌∷◌, Bool, true, false, ◌&&◌, ◌||◌, Option, none, some, ltb, if◌then◌else◌,
}
use portbase.Prelude.Dict.{Dict, lookup, insert, same}
use portbase.Config.{Value, ValueCache, ConfigOption, migrate_value, validate_value, and_then}

-- "core/releaseLevel"
abbrev pub release_level_key : List ℕ
release_level_key =
    b'c' ∷ b'o' ∷ b'r' ∷ b'e' ∷ b'/' ∷ b'r' ∷ b'e' ∷ b'l' ∷ b'e' ∷ b'a' ∷ b's' ∷ b'e' ∷ b'L' ∷ b'e'
    ∷ b'v' ∷ b'e' ∷ b'l' ∷ []

abbrev pub name_beta : List ℕ
name_beta = b'b' ∷ b'e' ∷ b't' ∷ b'a' ∷ []

abbrev pub name_experimental : List ℕ
name_experimental =
    b'e' ∷ b'x' ∷ b'p' ∷ b'e' ∷ b'r' ∷ b'i' ∷ b'm' ∷ b'e' ∷ b'n' ∷ b't' ∷ b'a' ∷ b'l' ∷ []

-- `validity` counts the flags that signalChanges has replaced: a flag is set while it is the last one.
pub record Config : Type 0 where
  pub options : Dict ConfigOption
  pub active_release_level : ℕ
  pub validity : ℕ

pub data SetError : Type 0 where
  unknown_option invalid_value : SetError

unfoldable pub signal_changes : Config → Config
signal_changes c = record c { validity = suc c.validity }

abbrev pub prefer : Option ValueCache → Option ValueCache → Option ValueCache
prefer none o = o
prefer (some vc) o = some vc

abbrev level_named : List ℕ → ℕ
level_named name = if same name name_beta then 1 else if same name name_experimental then 2 else 0

abbrev level_of_cache : Option ValueCache → ℕ
level_of_cache none = 0
level_of_cache (some vc) = level_named vc.string_val

-- The default value counts before the user's, and this before the fallback. The fallback is always set
-- behind Register.
unfoldable pub level_of : ConfigOption → ℕ
level_of option =
    level_of_cache
      (prefer option.active_default_value (prefer option.active_value option.active_fallback_value))

-- handleOptionUpdate; the push of the update to the database is left out.
unfoldable pub handle_option_update : List ℕ → ConfigOption → Config → Config
handle_option_update key option c =
    if same key release_level_key then record c { active_release_level = level_of option } else c

-- The option changed in place, with the update handled.
unfoldable pub update_option : List ℕ → ConfigOption → Config → Config
update_option key option c =
    handle_option_update key option (record c { options = insert key option c.options })

unfoldable pub mark_restart : ConfigOption → ConfigOption
mark_restart option =
    if option.requires_restart then record option { restart_pending = true } else option

-- Which of the two values of an option is set.
pub data Layer : Type 0 where
  user_layer default_layer : Layer

abbrev pub layer_value : Layer → ConfigOption → Option ValueCache
layer_value user_layer option = option.active_value
layer_value default_layer option = option.active_default_value

abbrev pub set_layer : Layer → Option ValueCache → ConfigOption → ConfigOption
set_layer user_layer o option = record option { active_value = o }
set_layer default_layer o option = record option { active_default_value = o }

abbrev pub is_refused : Option ValueCache → Bool
is_refused none = true
is_refused (some vc) = false

-- The end of setOption, with the option as it is set.
abbrev pub finish_set : List ℕ → ConfigOption → Config → Config × Option SetError
finish_set key option c = (signal_changes (update_option key (mark_restart option) c), none)

-- A value that is not valid leaves the option's values as they were.
abbrev pub set_checked :
    Layer → List ℕ → Option ValueCache → ConfigOption → Config → Config × Option SetError
set_checked layer key none option c =
    (update_option key (mark_restart option) c, some invalid_value)
set_checked layer key (some vc) option c = finish_set key (set_layer layer (some vc) option) c

abbrev pub insert_valid : List ℕ → Option ValueCache → ConfigOption → Config → Option Config
insert_valid key none option c = none
insert_valid key (some vc) option c = some (record c {
  options = insert key (record option { active_fallback_value = some vc }) c.options;
})

module _ (allows : Value → Value → Bool) (print : Value → List ℕ) where
  -- migrateValue, then validateValue.
  unfoldable pub checked : ConfigOption → Value → Option ValueCache
  checked option v = validate_value allows print option (migrate_value option v)

  -- The option with the new value, if there is one; an invalid one leaves none.
  unfoldable pub replaced : Layer → Option Value → ConfigOption → ConfigOption
  replaced layer v option = set_layer layer (and_then v (checked option)) option

  abbrev pub replace_all : Layer → Dict Value → Dict ConfigOption → Config → Config
  replace_all layer new_values [] c = c
  replace_all layer new_values ((key, option) ∷ rest) c =
      replace_all layer new_values rest
        (update_option key (replaced layer (lookup key new_values) option) c)

  -- ReplaceConfig and ReplaceDefaultConfig; the errors are in `config_errors`.
  unfoldable pub replace_config : Layer → Dict Value → Config → Config
  replace_config layer new_values c = signal_changes (replace_all layer new_values c.options c)

  abbrev is_invalid_for : ConfigOption → Option Value → Bool
  is_invalid_for option none = false
  is_invalid_for option (some v) = is_refused (checked option v)

  abbrev pub any_option : (List ℕ → ConfigOption → Bool) → Dict ConfigOption → Bool
  any_option test [] = false
  any_option test ((key, option) ∷ rest) = test key option || any_option test rest

  abbrev pub count_options : (List ℕ → ConfigOption → Bool) → Dict ConfigOption → ℕ
  count_options test [] = 0
  count_options test ((key, option) ∷ rest) =
      (if test key option then 1 else 0) + count_options test rest

  abbrev pub size {ℓ} : {V : Type ℓ} → Dict V → ℕ
  size [] = 0
  size (x ∷ rest) = suc (size rest)

  abbrev pub has_value {ℓ} : {V : Type ℓ} → Option V → Bool
  has_value none = false
  has_value (some v) = true

  -- How many validation errors ReplaceConfig and ValidateConfig report.
  unfoldable pub config_errors : Dict Value → Config → ℕ
  config_errors new_values c =
      count_options (λ key option. is_invalid_for option (lookup key new_values)) c.options

  -- ValidateConfig: the number of errors, whether a restart is required, and whether there are unknown keys.
  unfoldable pub validate_config : Dict Value → Config → ℕ × (Bool × Bool)
  validate_config new_values c = (
    config_errors new_values c,
    (
      any_option (λ key option. has_value (lookup key new_values) && option.requires_restart)
          c.options,
      ltb (count_options (λ key option. has_value (lookup key new_values)) c.options)
          (size new_values),
    ),
  )

  -- No value resets the option.
  abbrev pub set_found :
      Layer → List ℕ → Option Value → Option ConfigOption → Config → Config × Option SetError
  set_found layer key v none c = (c, some unknown_option)
  set_found layer key none (some option) c = finish_set key (set_layer layer none option) c
  set_found layer key (some v) (some option) c = set_checked layer key (checked option v) option c

  -- SetConfigOption and SetDefaultConfigOption, but for the write of the file.
  unfoldable pub set_config_option :
      Layer → List ℕ → Option Value → Config → Config × Option SetError
  set_config_option layer key v c = set_found layer key v (lookup key c.options) c

  -- Register, behind its checks of the name, key, description and type, and the compilation of the regex.
  unfoldable pub register : List ℕ → Value → ConfigOption → Config → Option Config
  register key default_value option c =
      insert_valid key (validate_value allows print option default_value) option c

  -- The values that SaveConfig writes.
  abbrev pub active_values : Dict ConfigOption → Dict Value
  active_values [] = []
  active_values ((key, option) ∷ rest) = elim option.active_value [
    | none ↦ active_values rest
    | some vc ↦ (key, portbase.Config.get_data option.opt_type vc) ∷ active_values rest
  ]
