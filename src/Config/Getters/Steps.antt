-- ===== src/Config/Getters/Steps.antt =====
-- What happens around a returned function: changes of the configuration, and calls.
use portbase.Prelude.{ℕ, ◌≡◌, List, Bool, Option, none, some}
use portbase.Prelude.Dict.{Dict, lookup}
use portbase.Config.{Value, OptionType, ValueCache, ConfigOption}
use portbase.Config.Changes.{
  Config, Layer, release_level_key, level_of, replace_config, set_config_option, register,
}
use portbase.Config.Getters.{Getter, get_as, call}

module _ (allows : Value → Value → Bool) (print : Value → List ℕ) where
  -- A registration is that of a new key, with an option that has no values yet. One of a key that is registered
  -- is no such change: it would replace the option that returned functions look up, without a signal.
  pub data Change (c : Config) : Config → Type 0 where
    replaces : (layer : Layer) (vs : Dict Value) → Change c (replace_config allows print layer vs c)
    sets :
        (layer : Layer) (key : List ℕ) (v : Option Value)
        → Change c (set_config_option allows print layer key v c).0
    registers :
        (key : List ℕ) (v : Value) (option : ConfigOption) (c' : Config)
        → lookup key c.options ≡ none
        → option.active_value ≡ none
        → option.active_default_value ≡ none
        → register allows print key v option c ≡ some c'
        → Change c c'

  pub data History (start : Config) : Config → Type 0 where
    at_start : History start start
    then_change : {c c' : Config} → History start c → Change c c' → History start c'

module _ {ℓ} {A : Type ℓ} (allows : Value → Value → Bool) (print : Value → List ℕ) (name : List ℕ)
    (requested : OptionType) (read : ValueCache → A) (fallback : A) where
  -- The function is made in `start`; changes and calls follow in any order.
  pub data Use (start : Config) : Config → Getter A → Type ℓ where
    made : Use start start (get_as name requested read fallback start)
    changed :
        {c c' : Config} {g : Getter A} → Use start c g → Change allows print c c' → Use start c' g
    called :
        {c : Config} {g : Getter A}
        → Use start c g
        → Use start c (call name requested read fallback g c).1

-- The option of the release level is registered, and its level is in force.
abbrev pub IsInSync : Config → Type 0
IsInSync c =
    (option : ConfigOption) × (lookup release_level_key c.options ≡ some option)
    × (c.active_release_level ≡ level_of option)
