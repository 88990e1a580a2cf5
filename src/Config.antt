-- ===== src/Config.antt =====
-- config: options, the validation of values, and the values that getters return. A string is its bytes;
-- an option is known by its key in place of the pointer to it. Left to parameters: `allows`, the
-- reflective comparison of a possible value with a value, and `print`, the text of a number by %v.
pub mod Changes
pub mod Getters
pub mod Validity
mod Tests
use portbase.Prelude.{
  ℕ, zero, suc, ◌+◌, List, [], ◌∷◌, ◌++◌, Bool, true, false, not, ◌&&◌, ◌||◌, Option, none, some,
  ltb, leb, ◌==◌, if◌then◌else◌,
}
use portbase.Prelude.Int.{ℤ, pos, int64}
use portbase.Prelude.Dict.{Dict, lookup, insert, same}

-- The types of an interface{} that validateValue tells apart. A number of an unsigned type goes to int64
-- by its bits; `float` has the int64 of a number without decimals. `items` is a []interface{}, with none
-- for an entry that is not a string. uint64 and all else is `other`.
pub data Value : Type 0 where
  text : List ℕ → Value
  texts : List (List ℕ) → Value
  items : List (Option (List ℕ)) → Value
  signed : ℤ → Value
  unsigned : ℕ → Value
  float : Option ℤ → Value
  boolean : Bool → Value
  other : Value

pub data OptionType : Type 0 where
  any_type string_type string_array_type int_type bool_type : OptionType

abbrev pub same_type : OptionType → OptionType → Bool
same_type any_type any_type = true
same_type string_type string_type = true
same_type string_array_type string_array_type = true
same_type int_type int_type = true
same_type bool_type bool_type = true
same_type _ _ = false

pub record ValueCache : Type 0 where
  pub string_val : List ℕ
  pub string_array_val : List (List ℕ)
  pub int_val : ℤ
  pub bool_val : Bool

abbrev pub empty_cache : ValueCache
empty_cache = record { string_val = []; string_array_val = []; int_val = pos 0; bool_val = false }

pub get_data : OptionType → ValueCache → Value
get_data any_type vc = other
get_data string_type vc = text vc.string_val
get_data string_array_type vc = texts vc.string_array_val
get_data int_type vc = signed vc.int_val
get_data bool_type vc = boolean vc.bool_val

-- Option of the package. `validation_func` says whether the function returns no error.
pub record ConfigOption : Type 0 where
  pub opt_type : OptionType
  pub release_level : ℕ
  pub requires_restart : Bool
  pub possible_values : Option (List Value)
  pub compiled_regex : Option (List ℕ → Bool)
  pub validation_func : Option (Value → Bool)
  pub migrations : List (Value → Value)
  pub restart_pending : Bool
  pub active_value : Option ValueCache
  pub active_default_value : Option ValueCache
  pub active_fallback_value : Option ValueCache

abbrev pub matches : Option (List ℕ → Bool) → List ℕ → Bool
matches none s = true
matches (some regex) s = regex s

abbrev pub any_where {ℓ} : {A : Type ℓ} → (A → Bool) → List A → Bool
any_where test [] = false
any_where test (x ∷ xs) = test x || any_where test xs

-- Every entry as a string, if all are.
abbrev pub all_strings : List (Option (List ℕ)) → Option (List (List ℕ))
all_strings [] = some []
all_strings (none ∷ es) = none
all_strings (some s ∷ es) = elim (all_strings es) [ none ↦ none | some ss ↦ some (s ∷ ss) ]

abbrev pub migrate_all : List (Value → Value) → Value → Value
migrate_all [] v = v
migrate_all (migration ∷ rest) v = migrate_all rest (migration v)

pub migrate_value : ConfigOption → Value → Value
migrate_value option v = migrate_all option.migrations v

abbrev pub and_then {ℓ κ} : {A : Type ℓ} {B : Type κ} → Option A → (A → Option B) → Option B
and_then none next = none
and_then (some a) next = next a

abbrev pub only_if {ℓ} : {A : Type ℓ} → Bool → Option A → Option A
only_if true o = o
only_if false o = none

module _ (allows : Value → Value → Bool) (print : Value → List ℕ) where
  abbrev pub allowed_by : Option (List Value) → Value → Bool
  allowed_by none v = true
  allowed_by (some possible) v = any_where (λ p. allows p v) possible

  unfoldable pub is_allowed_possible_value : ConfigOption → Value → Bool
  is_allowed_possible_value option v = allowed_by option.possible_values v

  -- Entries of a list, if there is a regex.
  abbrev pub entries_match : ConfigOption → Option (List ℕ → Bool) → List (List ℕ) → Bool
  entries_match option none entries = true
  entries_match option (some regex) [] = true
  entries_match option (some regex) (s ∷ rest) =
      (regex s && is_allowed_possible_value option (text s))
      && entries_match option (some regex) rest

  unfoldable pub first_check : ConfigOption → Value → Bool
  first_check option v =
      same_type option.opt_type string_array_type || is_allowed_possible_value option v

  -- The additional function, on the value of the option's type.
  abbrev pub accepted_by : Option (Value → Bool) → Value → Bool
  accepted_by none v = true
  accepted_by (some fn) v = fn v

  unfoldable pub last_check : ConfigOption → ValueCache → Option ValueCache
  last_check option vc =
      only_if (accepted_by option.validation_func (get_data option.opt_type vc)) (some vc)

  -- The case of a []string.
  unfoldable pub validate_texts : ConfigOption → List (List ℕ) → Option ValueCache
  validate_texts option ss =
      only_if
        (same_type option.opt_type string_array_type
          && entries_match option option.compiled_regex ss)
        (some (record empty_cache { string_array_val = ss }))

  abbrev pub validate_number : ConfigOption → Value → Option ℤ → Option ValueCache
  validate_number option v none = none
  validate_number option v (some z) =
      only_if (same_type option.opt_type int_type && matches option.compiled_regex (print v))
        (some (record empty_cache { int_val = z }))

  unfoldable pub validate_typed : ConfigOption → Value → Option ValueCache
  validate_typed option (text s) =
      only_if (same_type option.opt_type string_type && matches option.compiled_regex s)
        (some (record empty_cache { string_val = s }))
  validate_typed option (texts ss) = validate_texts option ss
  validate_typed option (items es) = and_then (all_strings es) (λ ss.
      only_if (first_check option (texts ss))
        (and_then (validate_texts option ss) (λ vc. last_check option vc)))
  validate_typed option (signed z) = validate_number option (signed z) (some z)
  validate_typed option (unsigned n) = validate_number option (unsigned n) (some (int64 n))
  validate_typed option (float o) = validate_number option (float o) o
  validate_typed option (boolean b) =
      only_if (same_type option.opt_type bool_type) (some (record empty_cache { bool_val = b }))
  validate_typed option other = none

  unfoldable pub validate_value : ConfigOption → Value → Option ValueCache
  validate_value option v =
      only_if (first_check option v)
        (and_then (validate_typed option v) (λ vc. last_check option vc))
