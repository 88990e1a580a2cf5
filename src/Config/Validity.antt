-- ===== src/Config/Validity.antt =====
-- The values of options against the rules that the options give.
pub mod Rules
pub mod Kept
pub mod Saved
use mathlib.Core.Bool.{false≢true}
use mathlib.Core.Path.{subst}
use mathlib.Core.Option.{some-injective, none-ne-some}
use portbase.Prelude.{
  ℕ, ◌≡◌, refl, sym, ◌∙◌, ap, List, [], ◌∷◌, Bool, true, false, ◌&&◌, ◌||◌, Option, none, some,
  if◌then◌else◌, arith,
}
use portbase.Prelude.Int.{ℤ, int64}
use portbase.Config.{
  Value, text, texts, items, signed, unsigned, float, boolean, other, OptionType, any_type,
  string_type, string_array_type, int_type, bool_type, same_type, ValueCache, empty_cache,
  ConfigOption, matches, get_data, is_allowed_possible_value, allowed_by, entries_match,
  accepted_by, only_if, and_then, all_strings, first_check, last_check, validate_texts,
  validate_number, validate_typed, validate_value,
}

pub only_if_inv {ℓ} :
    {A : Type ℓ} (b : Bool) (o : Option A) (a : A)
    → only_if b o ≡ some a
    → (b ≡ true) × (o ≡ some a)
only_if_inv true o a e = (refl, e)
only_if_inv false o a e = absurd (none-ne-some a e)

pub and_then_inv {ℓ κ} :
    {A : Type ℓ} {B : Type κ} (o : Option A) (f : A → Option B) (b : B)
    → and_then o f ≡ some b
    → (a : A) × (o ≡ some a) × (f a ≡ some b)
and_then_inv none f b e = absurd (none-ne-some b e)
and_then_inv (some a) f b e = (a, refl, e)

module _ (allows : Value → Value → Bool) (print : Value → List ℕ) where
  -- The number that is stored for a value, as validateValue converts it.
  abbrev pub number_of : Value → Option ℤ
  number_of (signed z) = some z
  number_of (unsigned n) = some (int64 n)
  number_of (float o) = o
  number_of v = none

  -- The regex and the possible values of a number are about the value as it was given: the number that is
  -- stored is that of a value that keeps them.
  abbrev pub FollowsAs : OptionType → ConfigOption → ValueCache → Type 0
  FollowsAs any_type option vc = ⊥
  FollowsAs string_type option vc =
      (matches option.compiled_regex vc.string_val ≡ true)
      × (is_allowed_possible_value allows print option (text vc.string_val) ≡ true)
  FollowsAs string_array_type option vc =
      entries_match allows print option option.compiled_regex vc.string_array_val ≡ true
  FollowsAs int_type option vc =
      (v : Value) × (number_of v ≡ some vc.int_val)
      × (matches option.compiled_regex (print v) ≡ true)
      × (is_allowed_possible_value allows print option v ≡ true)
  FollowsAs bool_type option vc =
      is_allowed_possible_value allows print option (boolean vc.bool_val) ≡ true

  -- The rules on a stored value, the additional function of the option among them.
  abbrev pub FollowsRules : ConfigOption → ValueCache → Type 0
  FollowsRules option vc =
      FollowsAs option.opt_type option vc
      × (accepted_by allows print option.validation_func (get_data option.opt_type vc) ≡ true)

  text-follows :
      (t : OptionType) (option : ConfigOption) (s : List ℕ) (vc : ValueCache)
      → (same_type t string_type && matches option.compiled_regex s) ≡ true
      → (same_type t string_array_type || is_allowed_possible_value allows print option (text s))
        ≡ true
      → record empty_cache { string_val = s } ≡ vc
      → FollowsAs t option vc
  text-follows string_type option s vc m p e = subst (FollowsAs string_type option) e (m, p)
  text-follows any_type option s vc m p e = absurd (false≢true m)
  text-follows string_array_type option s vc m p e = absurd (false≢true m)
  text-follows int_type option s vc m p e = absurd (false≢true m)
  text-follows bool_type option s vc m p e = absurd (false≢true m)

  texts-follows :
      (t : OptionType) (option : ConfigOption) (ss : List (List ℕ)) (vc : ValueCache)
      → (same_type t string_array_type
          && entries_match allows print option option.compiled_regex ss)
        ≡ true
      → record empty_cache { string_array_val = ss } ≡ vc
      → FollowsAs t option vc
  texts-follows string_array_type option ss vc m e = subst (FollowsAs string_array_type option) e m
  texts-follows any_type option ss vc m e = absurd (false≢true m)
  texts-follows string_type option ss vc m e = absurd (false≢true m)
  texts-follows int_type option ss vc m e = absurd (false≢true m)
  texts-follows bool_type option ss vc m e = absurd (false≢true m)

  number-follows :
      (t : OptionType) (option : ConfigOption) (v : Value) (z : ℤ) (vc : ValueCache)
      → number_of v ≡ some z
      → (same_type t int_type && matches option.compiled_regex (print v)) ≡ true
      → (same_type t string_array_type || is_allowed_possible_value allows print option v) ≡ true
      → record empty_cache { int_val = z } ≡ vc
      → FollowsAs t option vc
  number-follows int_type option v z vc n m p e = subst (FollowsAs int_type option) e (v, n, m, p)
  number-follows any_type option v z vc n m p e = absurd (false≢true m)
  number-follows string_type option v z vc n m p e = absurd (false≢true m)
  number-follows string_array_type option v z vc n m p e = absurd (false≢true m)
  number-follows bool_type option v z vc n m p e = absurd (false≢true m)

  boolean-follows :
      (t : OptionType) (option : ConfigOption) (b : Bool) (vc : ValueCache)
      → same_type t bool_type ≡ true
      → (same_type t string_array_type || is_allowed_possible_value allows print option (boolean b))
        ≡ true
      → record empty_cache { bool_val = b } ≡ vc
      → FollowsAs t option vc
  boolean-follows bool_type option b vc m p e = subst (FollowsAs bool_type option) e p
  boolean-follows any_type option b vc m p e = absurd (false≢true m)
  boolean-follows string_type option b vc m p e = absurd (false≢true m)
  boolean-follows string_array_type option b vc m p e = absurd (false≢true m)
  boolean-follows int_type option b vc m p e = absurd (false≢true m)

  validate_number-follows :
      (option : ConfigOption) (v : Value) (o : Option ℤ) (vc : ValueCache)
      → number_of v ≡ o
      → (same_type option.opt_type string_array_type
          || is_allowed_possible_value allows print option v)
        ≡ true
      → validate_number allows print option v o ≡ some vc
      → FollowsAs option.opt_type option vc
  validate_number-follows option v none vc n p e = absurd (none-ne-some vc e)
  validate_number-follows option v (some z) vc n p e =
      let h = only_if_inv _ _ vc e in
      number-follows option.opt_type option v z vc n (h.0) p (some-injective _ _ (h.1))

  validate_texts-follows :
      (option : ConfigOption) (ss : List (List ℕ)) (vc : ValueCache)
      → validate_texts allows print option ss ≡ some vc
      → FollowsAs option.opt_type option vc
  unfolding validate_texts
  validate_texts-follows option ss vc e =
      let h = only_if_inv _ _ vc e in
      texts-follows option.opt_type option ss vc (h.0) (some-injective _ _ (h.1))

  pub last_check-inv :
      (option : ConfigOption) (vc vc' : ValueCache)
      → last_check allows print option vc ≡ some vc'
      → (vc ≡ vc')
        × (accepted_by allows print option.validation_func (get_data option.opt_type vc) ≡ true)
  unfolding last_check
  last_check-inv option vc vc' e = let h = only_if_inv _ _ vc' e in (some-injective _ _ (h.1), h.0)

  validate_typed-follows :
      (option : ConfigOption) (v : Value) (vc : ValueCache)
      → first_check allows print option v ≡ true
      → validate_typed allows print option v ≡ some vc
      → FollowsAs option.opt_type option vc
  unfolding first_check validate_typed
  validate_typed-follows option (text s) vc p e =
      let h = only_if_inv _ _ vc e in
      text-follows option.opt_type option s vc (h.0) p (some-injective _ _ (h.1))
  validate_typed-follows option (texts ss) vc p e = validate_texts-follows option ss vc e
  validate_typed-follows option (items es) vc p e =
      let all = and_then_inv (all_strings es) _ vc e in
      let checks = only_if_inv _ _ vc (all.2) in
      let valid = and_then_inv _ _ vc (checks.1) in
      validate_texts-follows option (all.0) vc
        (valid.1 ∙ ap (λ x. some x) (last_check-inv option (valid.0) vc (valid.2)).0)
  validate_typed-follows option (signed z) vc p e =
      validate_number-follows option (signed z) (some z) vc refl p e
  validate_typed-follows option (unsigned n) vc p e =
      validate_number-follows option (unsigned n) (some (int64 n)) vc refl p e
  validate_typed-follows option (float o) vc p e =
      validate_number-follows option (float o) o vc refl p e
  validate_typed-follows option (boolean b) vc p e =
      let h = only_if_inv _ _ vc e in
      boolean-follows option.opt_type option b vc (h.0) p (some-injective _ _ (h.1))
  validate_typed-follows option other vc p e = absurd (none-ne-some vc e)

  pub validate_value-FollowsRules :
      (option : ConfigOption) (v : Value) (vc : ValueCache)
      → validate_value allows print option v ≡ some vc
      → FollowsRules option vc
  unfolding validate_value
  validate_value-FollowsRules option v vc e =
      let first = only_if_inv _ _ vc e in
      let typed = and_then_inv _ _ vc (first.1) in
      let last = last_check-inv option (typed.0) vc (typed.2) in
      subst (FollowsRules option) last.0
        (validate_typed-follows option v (typed.0) (first.0) (typed.1), last.1)
