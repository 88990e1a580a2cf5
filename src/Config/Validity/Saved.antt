-- ===== src/Config/Validity/Saved.antt =====
-- Values that are saved, as SaveConfig reads them from the options, and validated again.
use mathlib.Core.Option.{some-injective, none-ne-some}
use mathlib.Core.Path.{subst}
use portbase.Prelude.{
  ℕ, ◌≡◌, refl, sym, ◌∙◌, ap, List, Bool, true, false, ◌&&◌, Option, none, some, arith,
}
use portbase.Prelude.Int.{ℤ, int64}
use portbase.Config.{
  Value, text, texts, items, signed, unsigned, float, boolean, other, OptionType, any_type,
  string_type, string_array_type, int_type, bool_type, same_type, ValueCache, empty_cache,
  ConfigOption, get_data, all_strings, first_check, last_check, validate_texts, validate_number,
  validate_typed, validate_value,
}
use portbase.Config.Validity.{only_if_inv, and_then_inv, last_check-inv}

first_true : (a b : Bool) → (a && b) ≡ true → a ≡ true
first_true true b e = refl
first_true false b e = ground arith

text-get_data :
    (t : OptionType) (m : Bool) (s : List ℕ) (vc : ValueCache)
    → (same_type t string_type && m) ≡ true
    → record empty_cache { string_val = s } ≡ vc
    → get_data t vc ≡ text s
unfolding get_data
text-get_data string_type m s vc h e = rw⁻¹ e refl
text-get_data any_type m s vc h e = ground arith
text-get_data string_array_type m s vc h e = ground arith
text-get_data int_type m s vc h e = ground arith
text-get_data bool_type m s vc h e = ground arith

texts-get_data :
    (t : OptionType) (m : Bool) (ss : List (List ℕ)) (vc : ValueCache)
    → (same_type t string_array_type && m) ≡ true
    → record empty_cache { string_array_val = ss } ≡ vc
    → get_data t vc ≡ texts ss
unfolding get_data
texts-get_data string_array_type m ss vc h e = rw⁻¹ e refl
texts-get_data any_type m ss vc h e = ground arith
texts-get_data string_type m ss vc h e = ground arith
texts-get_data int_type m ss vc h e = ground arith
texts-get_data bool_type m ss vc h e = ground arith

boolean-get_data :
    (t : OptionType) (b : Bool) (vc : ValueCache)
    → same_type t bool_type ≡ true
    → record empty_cache { bool_val = b } ≡ vc
    → get_data t vc ≡ boolean b
unfolding get_data
boolean-get_data bool_type b vc h e = rw⁻¹ e refl
boolean-get_data any_type b vc h e = ground arith
boolean-get_data string_type b vc h e = ground arith
boolean-get_data string_array_type b vc h e = ground arith
boolean-get_data int_type b vc h e = ground arith

module _ (allows : Value → Value → Bool) (print : Value → List ℕ) where
  validate_texts-get_data :
      (option : ConfigOption) (ss : List (List ℕ)) (vc : ValueCache)
      → validate_texts allows print option ss ≡ some vc
      → get_data option.opt_type vc ≡ texts ss
  unfolding validate_texts
  validate_texts-get_data option ss vc e =
      let h = only_if_inv _ _ vc e in
      texts-get_data option.opt_type _ ss vc (h.0) (some-injective _ _ (h.1))

  number_is_int :
      (option : ConfigOption) (v : Value) (o : Option ℤ) (vc : ValueCache)
      → validate_number allows print option v o ≡ some vc
      → same_type option.opt_type int_type ≡ true
  number_is_int option v none vc e = absurd (none-ne-some vc e)
  number_is_int option v (some z) vc e =
      first_true (same_type option.opt_type int_type) _ (only_if_inv _ _ vc e).0

  -- What the first part of the validation finds.
  typed_again :
      (option : ConfigOption) (v : Value) (vc : ValueCache)
      → same_type option.opt_type int_type ≡ false
      → first_check allows print option v ≡ true
      → validate_typed allows print option v ≡ some vc
      → (first_check allows print option (get_data option.opt_type vc) ≡ true)
        × (validate_typed allows print option (get_data option.opt_type vc) ≡ some vc)
  unfolding validate_typed
  typed_again option (text s) vc not_int first e =
      let h = only_if_inv _ _ vc e in
      subst
        (λ x.
          (first_check allows print option x ≡ true)
          × (validate_typed allows print option x ≡ some vc))
        (sym (text-get_data option.opt_type _ s vc (h.0) (some-injective _ _ (h.1)))) (first, e)
  typed_again option (texts ss) vc not_int first e =
      subst
        (λ x.
          (first_check allows print option x ≡ true)
          × (validate_typed allows print option x ≡ some vc))
        (sym (validate_texts-get_data option ss vc e)) (first, e)
  typed_again option (items es) vc not_int first e =
      let all = and_then_inv (all_strings es) _ vc e in
      let checks = only_if_inv _ _ vc (all.2) in
      let valid = and_then_inv _ _ vc (checks.1) in
      let is =
        valid.1 ∙ ap (λ x. some x) (last_check-inv allows print option (valid.0) vc (valid.2)).0 in
      subst
        (λ x.
          (first_check allows print option x ≡ true)
          × (validate_typed allows print option x ≡ some vc))
        (sym (validate_texts-get_data option (all.0) vc is)) (checks.0, is)
  typed_again option (signed z) vc not_int first e =
      ground (arith, not_int, number_is_int option (signed z) (some z) vc e)
  typed_again option (unsigned n) vc not_int first e =
      ground (arith, not_int, number_is_int option (unsigned n) (some (int64 n)) vc e)
  typed_again option (float o) vc not_int first e =
      ground (arith, not_int, number_is_int option (float o) o vc e)
  typed_again option (boolean b) vc not_int first e =
      let h = only_if_inv _ _ vc e in
      subst
        (λ x.
          (first_check allows print option x ≡ true)
          × (validate_typed allows print option x ≡ some vc))
        (sym (boolean-get_data option.opt_type b vc (h.0) (some-injective _ _ (h.1)))) (first, e)
  typed_again option other vc not_int first e = absurd (none-ne-some vc e)

  -- A valid value of an option that is not a number, read back from the option as it is when the configuration
  -- is saved, is valid again and is kept as the same value.
  pub validate_value-get_data :
      (option : ConfigOption) (v : Value) (vc : ValueCache)
      → same_type option.opt_type int_type ≡ false
      → validate_value allows print option v ≡ some vc
      → validate_value allows print option (get_data option.opt_type vc) ≡ some vc
  unfolding validate_value
  validate_value-get_data option v vc not_int e =
      let first = only_if_inv _ _ vc e in
      let typed = and_then_inv _ _ vc (first.1) in
      let kept = (last_check-inv allows print option (typed.0) vc (typed.2)).0 in
      let again = typed_again option v vc not_int (first.0) (typed.1 ∙ ap (λ x. some x) kept) in
      rw (again.0, again.1) (subst (λ x. last_check allows print option x ≡ some vc) kept (typed.2))
