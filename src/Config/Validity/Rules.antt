-- ===== src/Config/Validity/Rules.antt =====
-- The rules of an option on its values, which changes of the values leave alone.
use mathlib.Core.Option.{none-ne-some}
use mathlib.Core.Path.{subst}
use portbase.Prelude.{
  ℕ, ◌≡◌, refl, sym, ◌∙◌, List, [], ◌∷◌, Bool, false, Option, none, some, All, ◌↔◌,
}
use portbase.Prelude.Dict.{Dict}
use portbase.Config.{
  Value, OptionType, any_type, string_type, string_array_type, int_type, bool_type, ValueCache,
  ConfigOption, entries_match, is_allowed_possible_value, and_then, migrate_value,
}
use portbase.Config.Changes.{Config, Layer, user_layer, default_layer, set_layer, checked}
use portbase.Config.Validity.{FollowsRules, FollowsAs, validate_value-FollowsRules}

module _ (allows : Value → Value → Bool) (print : Value → List ℕ) where
  -- An option with the values taken away: the rules.
  unfoldable pub rules_of : ConfigOption → ConfigOption
  rules_of option = record option {
    restart_pending = false;
    active_value = none;
    active_default_value = none;
    active_fallback_value = none;
  }

  entries_match-rules_of :
      (option : ConfigOption) (regex : Option (List ℕ → Bool)) (ss : List (List ℕ))
      → entries_match allows print option regex ss
        ≡ entries_match allows print (rules_of option) regex ss
  unfolding rules_of is_allowed_possible_value
  entries_match-rules_of option none ss = refl
  entries_match-rules_of option (some regex) [] = refl
  entries_match-rules_of option (some regex) (s ∷ ss) =
      rw (entries_match-rules_of option (some regex) ss) refl

  FollowsAs-rules_of :
      (t : OptionType) (option : ConfigOption) (vc : ValueCache)
      → FollowsAs allows print t option vc ↔ FollowsAs allows print t (rules_of option) vc
  unfolding rules_of is_allowed_possible_value
  FollowsAs-rules_of any_type option vc = (λ h. h, λ h. h)
  FollowsAs-rules_of string_type option vc = (λ h. h, λ h. h)
  FollowsAs-rules_of string_array_type option vc =
      let same = entries_match-rules_of option option.compiled_regex vc.string_array_val in
      (λ h. sym same ∙ h, λ h. same ∙ h)
  FollowsAs-rules_of int_type option vc = (λ h. h, λ h. h)
  FollowsAs-rules_of bool_type option vc = (λ h. h, λ h. h)

  FollowsRules-rules_of :
      (option : ConfigOption) (vc : ValueCache)
      → FollowsRules allows print option vc ↔ FollowsRules allows print (rules_of option) vc
  unfolding rules_of
  FollowsRules-rules_of option vc =
      let same = FollowsAs-rules_of option.opt_type option vc in
      (λ h. (same.0 h.0, h.1), λ h. (same.1 h.0, h.1))

  -- A value that is set follows the rules.
  abbrev pub IsGood : ConfigOption → Option ValueCache → Type 0
  IsGood option o = (vc : ValueCache) → o ≡ some vc → FollowsRules allows print option vc

  abbrev pub HasGoodValues : ConfigOption → Type 0
  HasGoodValues option =
      IsGood option option.active_value
      × IsGood option option.active_default_value
      × IsGood option option.active_fallback_value

  abbrev pub AreGood : Dict ConfigOption → Type 0
  AreGood os = All (λ (entry : List ℕ × ConfigOption). HasGoodValues entry.1) os

  abbrev pub IsValidated : Config → Type 0
  IsValidated c = AreGood c.options

  -- Values are good for an option with the same rules.
  pub rules_of-IsGood :
      (o p : ConfigOption) (v : Option ValueCache)
      → rules_of o ≡ rules_of p
      → IsGood o v
      → IsGood p v
  rules_of-IsGood o p v e good vc is =
      (FollowsRules-rules_of p vc).1 (
        subst (λ q. FollowsRules allows print q vc) e ((FollowsRules-rules_of o vc).0 (good vc is)))

  pub none-IsGood : (option : ConfigOption) → IsGood option none
  none-IsGood option vc e = absurd (none-ne-some vc e)

  pub checked-IsGood :
      (option : ConfigOption) (v : Value) → IsGood option (checked allows print option v)
  unfolding checked
  checked-IsGood option v vc e =
      validate_value-FollowsRules allows print option (migrate_value option v) vc e

  pub given-IsGood :
      (option : ConfigOption) (v : Option Value)
      → IsGood option (and_then v (checked allows print option))
  given-IsGood option none = none-IsGood option
  given-IsGood option (some v) = checked-IsGood option v

  pub set_layer-HasGoodValues :
      (layer : Layer) (v : Option ValueCache) (option : ConfigOption)
      → HasGoodValues option
      → IsGood option v
      → HasGoodValues (set_layer layer v option)
  unfolding rules_of
  set_layer-HasGoodValues user_layer v option (a, d, f) good =
      let now = set_layer user_layer v option in
      (
        rules_of-IsGood option now v refl good,
        rules_of-IsGood option now option.active_default_value refl d,
        rules_of-IsGood option now option.active_fallback_value refl f,
      )
  set_layer-HasGoodValues default_layer v option (a, d, f) good =
      let now = set_layer default_layer v option in
      (
        rules_of-IsGood option now option.active_value refl a,
        rules_of-IsGood option now v refl good,
        rules_of-IsGood option now option.active_fallback_value refl f,
      )
