-- ===== src/Config/Validity/Kept.antt =====
-- The values of options, through all changes.
use mathlib.Core.Path.{subst}
use mathlib.Core.Option.{some-injective, none-ne-some}
use portbase.Prelude.{
  ℕ, ◌≡◌, refl, sym, List, [], ◌∷◌, Bool, true, false, Option, none, some, if◌then◌else◌,
  Bool-cases, inl, inr, if_inv,
}
use portbase.Prelude.Dict.{Dict, lookup, insert, same}
use portbase.Config.{
  Value, OptionType, ValueCache, ConfigOption, and_then, validate_value, only_if, same_type,
}
use portbase.Config.Changes.{
  Config, Layer, set_layer, replace_config, replace_all, replaced, set_config_option, set_found,
  set_checked, finish_set, insert_valid, register, update_option, mark_restart, signal_changes,
  checked, prefer,
}
use portbase.Config.Getters.{find_value, get_value_cache, value_if_type}
use portbase.Config.Getters.Steps.{Change, History}
use portbase.Config.Getters.Updates.{update_option-options}
use portbase.Config.Validity.{FollowsRules, validate_value-FollowsRules}
use portbase.Config.Validity.Rules.{
  rules_of, IsGood, HasGoodValues, AreGood, IsValidated, rules_of-IsGood, none-IsGood,
  checked-IsGood, given-IsGood, set_layer-HasGoodValues,
}

module _ (allows : Value → Value → Bool) (print : Value → List ℕ) where
  lookup-HasGoodValues :
      (key : List ℕ) (option : ConfigOption) (os : Dict ConfigOption)
      → AreGood allows print os
      → lookup key os ≡ some option
      → HasGoodValues allows print option
  lookup-HasGoodValues key option [] good e = absurd (none-ne-some option e)
  lookup-HasGoodValues key option ((j, o) ∷ os) (first, rest) e = elim (if_inv (same j key) e) [
    | inl (same_key, here) ↦ subst (HasGoodValues allows print) (some-injective _ _ here) first
    | inr (other_key, there) ↦ lookup-HasGoodValues key option os rest there
  ]

  insert-AreGood :
      (key : List ℕ) (option : ConfigOption) (os : Dict ConfigOption)
      → AreGood allows print os
      → HasGoodValues allows print option
      → AreGood allows print (insert key option os)
  insert-AreGood key option [] good h = (h, good)
  insert-AreGood key option ((j, o) ∷ os) (first, rest) h = elim (Bool-cases (same j key)) [
    | inl e ↦ rw e (h, rest)
    | inr e ↦ rw e (first, insert-AreGood key option os rest h)
  ]

  update_option-IsValidated :
      (key : List ℕ) (option : ConfigOption) (c : Config)
      → IsValidated allows print c
      → HasGoodValues allows print option
      → IsValidated allows print (update_option key option c)
  update_option-IsValidated key option c good h =
      rw (update_option-options key option c) (insert-AreGood key option c.options good h)

  mark_restart-HasGoodValues :
      (option : ConfigOption)
      → HasGoodValues allows print option
      → HasGoodValues allows print (mark_restart option)
  unfolding mark_restart rules_of
  mark_restart-HasGoodValues option (a, d, f) = marked option.requires_restart
    where
      marked :
          (b : Bool)
          → HasGoodValues allows print
              (if b then record option { restart_pending = true } else option)
      marked true =
          let now = record option { restart_pending = true } in
          (
            rules_of-IsGood allows print option now option.active_value refl a,
            rules_of-IsGood allows print option now option.active_default_value refl d,
            rules_of-IsGood allows print option now option.active_fallback_value refl f,
          )
      marked false = (a, d, f)

  replace_all-IsValidated :
      (layer : Layer) (vs : Dict Value) (os : Dict ConfigOption) (c : Config)
      → AreGood allows print os
      → IsValidated allows print c
      → IsValidated allows print (replace_all allows print layer vs os c)
  unfolding replaced
  replace_all-IsValidated layer vs [] c good h = h
  replace_all-IsValidated layer vs ((key, option) ∷ os) c (first, rest) h =
      let option' = replaced allows print layer (lookup key vs) option in
      replace_all-IsValidated layer vs os (update_option key option' c) rest (
        update_option-IsValidated key option' c h (
          set_layer-HasGoodValues allows print layer
            (and_then (lookup key vs) (checked allows print option)) option first
            (given-IsGood allows print option (lookup key vs))))

  finish_set-IsValidated :
      (key : List ℕ) (option : ConfigOption) (c : Config)
      → IsValidated allows print c
      → HasGoodValues allows print option
      → IsValidated allows print (finish_set key option c).0
  unfolding signal_changes
  finish_set-IsValidated key option c h good =
      update_option-IsValidated key (mark_restart option) c h
        (mark_restart-HasGoodValues option good)

  set_checked-IsValidated :
      (layer : Layer) (key : List ℕ) (v : Option ValueCache) (option : ConfigOption) (c : Config)
      → IsValidated allows print c
      → HasGoodValues allows print option
      → IsGood allows print option v
      → IsValidated allows print (set_checked layer key v option c).0
  set_checked-IsValidated layer key none option c h good v =
      update_option-IsValidated key (mark_restart option) c h
        (mark_restart-HasGoodValues option good)
  set_checked-IsValidated layer key (some vc) option c h good v =
      finish_set-IsValidated key (set_layer layer (some vc) option) c h
        (set_layer-HasGoodValues allows print layer (some vc) option good v)

  set_found-IsValidated :
      (layer : Layer) (key : List ℕ) (v : Option Value) (found : Option ConfigOption) (c : Config)
      → lookup key c.options ≡ found
      → IsValidated allows print c
      → IsValidated allows print (set_found allows print layer key v found c).0
  set_found-IsValidated layer key v none c e h = h
  set_found-IsValidated layer key none (some option) c e h =
      finish_set-IsValidated key (set_layer layer none option) c h (
        set_layer-HasGoodValues allows print layer none option
          (lookup-HasGoodValues key option c.options h e) (none-IsGood allows print option))
  set_found-IsValidated layer key (some v) (some option) c e h =
      set_checked-IsValidated layer key (checked allows print option v) option c h
        (lookup-HasGoodValues key option c.options h e) (checked-IsGood allows print option v)

  -- A new option has the validated default as its fallback, and no other value.
  insert_valid-IsValidated :
      (key : List ℕ) (v : Option ValueCache) (option : ConfigOption) (c c' : Config)
      → option.active_value ≡ none
      → option.active_default_value ≡ none
      → IsGood allows print option v
      → insert_valid key v option c ≡ some c'
      → IsValidated allows print c
      → IsValidated allows print c'
  unfolding rules_of
  insert_valid-IsValidated key none option c c' a d good e h = absurd (none-ne-some c' e)
  insert_valid-IsValidated key (some vc) option c c' a d good e h =
      let now = record option { active_fallback_value = some vc } in
      rw⁻¹ (some-injective _ _ e) (
        insert-AreGood key now c.options h (
          subst (IsGood allows print now) (sym a) (none-IsGood allows print now),
          subst (IsGood allows print now) (sym d) (none-IsGood allows print now),
          rules_of-IsGood allows print option now (some vc) refl good,
        ))

  Change-IsValidated :
      (c c' : Config)
      → Change allows print c c'
      → IsValidated allows print c
      → IsValidated allows print c'
  unfolding replace_config set_config_option register signal_changes
  Change-IsValidated c _ (Change.replaces layer vs) h =
      replace_all-IsValidated layer vs c.options c h h
  Change-IsValidated c _ (Change.sets layer key v) h =
      set_found-IsValidated layer key v (lookup key c.options) c refl h
  Change-IsValidated c c' (Change.registers key v option _ fresh a d e) h =
      insert_valid-IsValidated key (validate_value allows print option v) option c c' a d
        (validate_value-FollowsRules allows print option v) e h

  History-IsValidated :
      {start c : Config}
      → History allows print start c
      → IsValidated allows print start
      → IsValidated allows print c
  History-IsValidated History.at_start h = h
  History-IsValidated (History.then_change {c = c} {c' = c'} before change) h =
      Change-IsValidated c c' change (History-IsValidated before h)

  prefer-IsGood :
      (option : ConfigOption) (u v : Option ValueCache)
      → IsGood allows print option u
      → IsGood allows print option v
      → IsGood allows print option (prefer u v)
  prefer-IsGood option none v hu hv = hv
  prefer-IsGood option (some x) v hu hv = hu

  only_if-IsGood :
      (option : ConfigOption) (b : Bool) (v : Option ValueCache)
      → IsGood allows print option v
      → IsGood allows print option (only_if b v)
  only_if-IsGood option true v h = h
  only_if-IsGood option false v h = none-IsGood allows print option

  find_value-IsGood :
      (option : ConfigOption) (level : ℕ)
      → HasGoodValues allows print option
      → IsGood allows print option (find_value option level)
  unfolding find_value
  find_value-IsGood option level (a, d, f) =
      prefer-IsGood option _ _ (only_if-IsGood option _ option.active_value a)
        (prefer-IsGood option _ _ d f)

  -- From a configuration in which every value that is set follows the rules of its option, for instance
  -- one without options, no sequence of changes in which no registered key is registered again leads to one
  -- where a lookup finds a value against the rules of its option on regex, possible values and validation function; of
  -- a number, some value that converts to it keeps regex and possible values.
  pub get_value_cache-FollowsRules :
      (start c : Config) (name : List ℕ) (requested : OptionType) (option : ConfigOption)
      (vc : ValueCache)
      → IsValidated allows print start
      → History allows print start c
      → lookup name c.options ≡ some option
      → get_value_cache name requested c ≡ some vc
      → FollowsRules allows print option vc
  unfolding get_value_cache
  get_value_cache-FollowsRules start c name requested option vc h history found e =
      find_value-IsGood option c.active_release_level
        (lookup-HasGoodValues name option c.options (History-IsValidated history h) found) vc
        (is_found (lookup name c.options) found e)
    where
      is_found :
          (o : Option ConfigOption)
          → o ≡ some option
          → value_if_type requested o c.active_release_level ≡ some vc
          → find_value option c.active_release_level ≡ some vc
      is_found none found e = absurd (none-ne-some option found)
      is_found (some p) found e =
          elim (if_inv (same_type requested p.opt_type) {x = find_value p c.active_release_level}
            {y = none} e) [
              | inl (_, is) ↦ rw⁻¹ (some-injective _ _ found) is
              | inr (_, is) ↦ absurd (none-ne-some vc is)
            ]
