-- ===== src/Config/Tests.antt =====
-- A configuration with the option of the release level and an option for beta users.
use portbase.Prelude.{ℕ, ◌≡◌, refl, List, [], ◌∷◌, Bool, true, false, none, some, not}
use portbase.Prelude.Int.{pos}
use portbase.Prelude.Dict.{lookup, same}
use portbase.Config.{
  Value, text, signed, string_type, int_type, ValueCache, empty_cache, ConfigOption, validate_value,
  migrate_value, first_check, is_allowed_possible_value, validate_typed, last_check, get_data,
}
use portbase.Config.Changes.{
  Config, user_layer, level_of, release_level_key, name_beta, set_config_option, checked,
  update_option, register, handle_option_update, mark_restart, signal_changes,
}
use portbase.Config.Getters.{Getter, get_as, call, current, get_value_cache, find_value}
use portbase.Config.Getters.Steps.{Change, History, Use, IsInSync}
use portbase.Config.Getters.Freshness.{call-current}
use portbase.Config.Validity.{FollowsRules}
use portbase.Config.Validity.Saved.{validate_value-get_data}
use portbase.Config.Validity.Kept.{get_value_cache-FollowsRules}

abbrev allows : Value → Value → Bool
allows (text s) (text r) = same s r
allows _ _ = false

abbrev print : Value → List ℕ
print v = []

abbrev a_string : List ℕ → ValueCache
a_string s = record empty_cache { string_val = s }

abbrev option_at : ℕ → ConfigOption
option_at level = record {
  opt_type = string_type;
  release_level = level;
  requires_restart = true;
  possible_values = none;
  compiled_regex = none;
  validation_func = some (λ v. allows v v);
  migrations = [];
  restart_pending = false;
  active_value = none;
  active_default_value = none;
  active_fallback_value = some (a_string []);
}

abbrev key : List ℕ
key = 7 ∷ []

abbrev config : Config
config = record {
  options = (key, option_at 1) ∷ (release_level_key, option_at 0) ∷ [];
  active_release_level = 0;
  validity = 0;
}

abbrev beta_config : Config
beta_config =
    (set_config_option allows print user_layer release_level_key (some (text name_beta)) config).0

abbrev set_up : Config
set_up = (set_config_option allows print user_layer key (some (text (1 ∷ 2 ∷ []))) beta_config).0

abbrev the_string : ValueCache → List ℕ
the_string vc = vc.string_val

abbrev getter : Config → Getter (List ℕ)
getter c = get_as key string_type the_string [] c

config-IsInSync : IsInSync config
unfolding level_of
config-IsInSync = (option_at 0, refl, refl)

call-current_example :
    (call key string_type the_string [] (getter config) set_up).0
    ≡ current key string_type the_string [] set_up
call-current_example =
    call-current allows print key string_type the_string [] config set_up (getter config)
      config-IsInSync (option_at 1) refl
      (Use.changed
        (Use.changed Use.made (Change.sets user_layer release_level_key (some (text name_beta))))
        (Change.sets user_layer key (some (text (1 ∷ 2 ∷ [])))))

-- The user's string counts now.
new_value : current key string_type the_string [] set_up ≡ 1 ∷ 2 ∷ []
unfolding current get_value_cache find_value set_config_option checked validate_value migrate_value
    update_option handle_option_update mark_restart signal_changes level_of first_check
    is_allowed_possible_value validate_typed last_check get_data
new_value = refl

abbrev empty_config : Config
empty_config = record { options = []; active_release_level = 0; validity = 0 }

-- A number, with a regex on its digits.
abbrev digits : Value → List ℕ
digits (signed (pos n)) = n ∷ []
digits _ = []

abbrev a_number : ℕ → ValueCache
a_number n = record empty_cache { int_val = pos n }

abbrev number_option : ConfigOption
number_option = record (option_at 0) {
  opt_type = int_type;
  compiled_regex = some (λ s. not (same s []));
  validation_func = none;
  active_fallback_value = none;
}

abbrev registered_config : Config
registered_config = record empty_config {
  options = (key, record number_option { active_fallback_value = some (a_number 3) }) ∷ [];
}

registration :
    register allows digits key (signed (pos 3)) number_option empty_config ≡ some registered_config
unfolding register validate_value first_check is_allowed_possible_value validate_typed last_check
    get_data
registration = refl

abbrev one_value : Config
one_value =
    (set_config_option allows digits user_layer key (some (signed (pos 5))) registered_config).0

abbrev set_option : ConfigOption
set_option = record number_option {
  active_fallback_value = some (a_number 3);
  active_value = some (a_number 5);
  restart_pending = true;
}

one_option : lookup key one_value.options ≡ some set_option
unfolding set_config_option checked validate_value migrate_value update_option handle_option_update
    mark_restart signal_changes level_of first_check is_allowed_possible_value validate_typed
    last_check get_data
one_option = refl

one_lookup : get_value_cache key int_type one_value ≡ some (a_number 5)
unfolding get_value_cache find_value set_config_option checked validate_value migrate_value
    update_option handle_option_update mark_restart signal_changes level_of first_check
    is_allowed_possible_value validate_typed last_check get_data
one_lookup = refl

get_value_cache-FollowsRules_example : FollowsRules allows digits set_option (a_number 5)
get_value_cache-FollowsRules_example =
    get_value_cache-FollowsRules allows digits empty_config one_value key int_type set_option
      (a_number 5) tt
      (History.then_change
        (History.then_change History.at_start (
          Change.registers key (signed (pos 3)) number_option registered_config refl refl refl
            registration))
        (Change.sets user_layer key (some (signed (pos 5)))))
      one_option one_lookup

given : validate_value allows print (option_at 0) (text (1 ∷ 2 ∷ [])) ≡ some (a_string (1 ∷ 2 ∷ []))
unfolding validate_value first_check is_allowed_possible_value validate_typed last_check get_data
given = refl

validate_value-get_data_example :
    validate_value allows print (option_at 0) (get_data string_type (a_string (1 ∷ 2 ∷ [])))
    ≡ some (a_string (1 ∷ 2 ∷ []))
validate_value-get_data_example =
    validate_value-get_data allows print (option_at 0) (text (1 ∷ 2 ∷ [])) (a_string (1 ∷ 2 ∷ []))
      refl given
