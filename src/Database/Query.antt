-- ===== src/Database/Query.antt =====
-- database/query: conditions and what they match, and the query executor of storage/hashmap. Numbers with
-- decimals are of a type `F` with its comparisons, a compiled regex is the function that matches it, and an
-- accessor is what it gives for a key.
pub mod Results
use portbase.Prelude.{
  ℕ, suc, ◌+◌, ◌-◌, List, [], ◌∷◌, Bool, true, false, not, ◌&&◌, ◌||◌, Option, none, some, ltb,
  ◌==◌, if◌then◌else◌, length, drop,
}
use portbase.Prelude.Int.{ℤ, pos, ltb_ℤ}
use portbase.Prelude.Dict.{Dict, same}
use portbase.Record.Key.{Base, parse_key}
use portbase.Record.Meta.{check_validity, check_permission}
use portbase.Database.{Entry}
use Prim.Native.String.{String}

-- Operators.
abbrev pub equals : ℕ
equals = 0

abbrev pub greater_than : ℕ
greater_than = 1

abbrev pub greater_than_or_equal : ℕ
greater_than_or_equal = 2

abbrev pub less_than : ℕ
less_than = 3

abbrev pub less_than_or_equal : ℕ
less_than_or_equal = 4

abbrev pub float_equals : ℕ
float_equals = 5

abbrev pub float_greater_than : ℕ
float_greater_than = 6

abbrev pub float_greater_than_or_equal : ℕ
float_greater_than_or_equal = 7

abbrev pub float_less_than : ℕ
float_less_than = 8

abbrev pub float_less_than_or_equal : ℕ
float_less_than_or_equal = 9

abbrev pub same_as : ℕ
same_as = 10

abbrev pub contains : ℕ
contains = 11

abbrev pub starts_with : ℕ
starts_with = 12

abbrev pub ends_with : ℕ
ends_with = 13

abbrev pub in_slice : ℕ
in_slice = 14

abbrev pub matches_regex : ℕ
matches_regex = 15

abbrev pub is_bool : ℕ
is_bool = 16

abbrev pub error_present : ℕ
error_present = 255

-- Each with its key, its operator and its value; `all_of` and `any_of` are andCond and orCond.
mutual
  pub data Condition (F : Type 0) : Type 0 where
    int_condition : List ℕ → ℕ → ℤ → Condition F
    float_condition : List ℕ → ℕ → F → Condition F
    string_condition : List ℕ → ℕ → List ℕ → Condition F
    slice_condition : List ℕ → ℕ → List (List ℕ) → Condition F
    regex_condition : List ℕ → ℕ → (List ℕ → Bool) → Condition F
    bool_condition : List ℕ → ℕ → Bool → Condition F
    exists_condition : List ℕ → ℕ → Condition F
    error_condition : Condition F
    all_of any_of : Conditions F → Condition F
    negation : Condition F → Condition F

  pub data Conditions (F : Type 0) : Type 0 where
    end : Conditions F
    also : Condition F → Conditions F → Conditions F

pub record Accessor (F : Type 0) : Type 0 where
  pub get_string : List ℕ → Option (List ℕ)
  pub get_int : List ℕ → Option ℤ
  pub get_float : List ℕ → Option F
  pub get_bool : List ℕ → Option Bool
  pub has_key : List ℕ → Bool

-- A value that is there and passes.
abbrev pub holds {ℓ} : {A : Type ℓ} → Option A → (A → Bool) → Bool
holds none test = false
holds (some a) test = test a

-- strings.HasPrefix, HasSuffix and Contains.
abbrev pub has_prefix : List ℕ → List ℕ → Bool
has_prefix s [] = true
has_prefix [] (p ∷ ps) = false
has_prefix (c ∷ s) (p ∷ ps) = if c == p then has_prefix s ps else false

abbrev pub has_suffix : List ℕ → List ℕ → Bool
has_suffix s suffix =
    if ltb (length s) (length suffix)
    then false
    else same (drop (length s - length suffix) s) suffix

abbrev pub has_part : List ℕ → List ℕ → Bool
has_part [] part = has_prefix [] part
has_part (c ∷ s) part = has_prefix (c ∷ s) part || has_part s part

abbrev pub string_in_slice : List (List ℕ) → List ℕ → Bool
string_in_slice [] s = false
string_in_slice (entry ∷ rest) s = if same entry s then true else string_in_slice rest s

unfoldable pub compare_ints : ℕ → ℤ → ℤ → Bool
compare_ints operator value comp =
    if operator == equals
    then not (ltb_ℤ comp value) && not (ltb_ℤ value comp)
    else if operator == greater_than
    then ltb_ℤ value comp
    else if operator == greater_than_or_equal
    then not (ltb_ℤ comp value)
    else if operator == less_than
    then ltb_ℤ comp value
    else if operator == less_than_or_equal
    then not (ltb_ℤ value comp)
    else false

unfoldable pub compare_strings : ℕ → List ℕ → List ℕ → Bool
compare_strings operator value comp =
    if operator == same_as
    then same value comp
    else if operator == contains
    then has_part comp value
    else if operator == starts_with
    then has_prefix comp value
    else if operator == ends_with
    then has_suffix comp value
    else false

-- A comparison with a number that is not one is false, so that `below` and `equal` are both needed.
pub record Floats (F : Type 0) : Type 0 where
  pub below : F → F → Bool
  pub equal : F → F → Bool

unfoldable pub compare_floats : {F : Type 0} → Floats F → ℕ → F → F → Bool
compare_floats fs operator value comp =
    if operator == float_equals
    then fs.equal comp value
    else if operator == float_greater_than
    then fs.below value comp
    else if operator == float_greater_than_or_equal
    then fs.below value comp || fs.equal comp value
    else if operator == float_less_than
    then fs.below comp value
    else if operator == float_less_than_or_equal
    then fs.below comp value || fs.equal comp value
    else false

abbrev pub equal_bools : Bool → Bool → Bool
equal_bools true b = b
equal_bools false b = not b

module _ {F : Type 0} (floats : Floats F) where
  unfoldable mutual
    pub complies : Condition F → Accessor F → Bool
    complies (int_condition key operator value) acc =
        holds (acc.get_int key) (λ comp. compare_ints operator value comp)
    complies (float_condition key operator value) acc =
        holds (acc.get_float key) (λ comp. compare_floats floats operator value comp)
    complies (string_condition key operator value) acc =
        holds (acc.get_string key) (λ comp. compare_strings operator value comp)
    complies (slice_condition key operator values) acc =
        holds (acc.get_string key) (λ comp. operator == in_slice && string_in_slice values comp)
    complies (regex_condition key operator regex) acc =
        holds (acc.get_string key) (λ comp. operator == matches_regex && regex comp)
    complies (bool_condition key operator value) acc =
        holds (acc.get_bool key) (λ comp. operator == is_bool && equal_bools comp value)
    complies (exists_condition key operator) acc = acc.has_key key
    complies error_condition acc = false
    complies (all_of cs) acc = all_comply cs acc
    complies (any_of cs) acc = any_complies cs acc
    complies (negation c) acc = not (complies c acc)

    pub all_comply : Conditions F → Accessor F → Bool
    all_comply end acc = true
    all_comply (also c cs) acc = complies c acc && all_comply cs acc

    pub any_complies : Conditions F → Accessor F → Bool
    any_complies end acc = false
    any_complies (also c cs) acc = complies c acc || any_complies cs acc

pub record Query (F : Type 0) : Type 0 where
  pub db_name : List ℕ
  pub db_key_prefix : List ℕ
  pub where_condition : Option (Condition F)
  pub order_by : List ℕ
  pub limit : ℤ
  pub offset : ℤ

unfoldable pub new : {F : Type 0} → List ℕ → Query F
new prefix = record {
  db_name = (parse_key prefix).0;
  db_key_prefix = (parse_key prefix).1;
  where_condition = none;
  order_by = [];
  limit = pos 0;
  offset = pos 0;
}

unfoldable pub matches_key : {F : Type 0} → Query F → List ℕ → Bool
matches_key q key = has_prefix key q.db_key_prefix

-- How the receiver answers when a record is sent: it takes the record at once or within a second, the iterator is
-- done, or a second passes.
pub data Answer : Type 0 where
  taken is_done timed_out : Answer

abbrev pub query_timeout : String
query_timeout = "query timeout"

-- One send: what was sent behind it and its error, if the executor goes on.
abbrev pub send : Answer → List ℕ → Entry → Dict Entry × Option String → Dict Entry × Option String
send taken key r (sent, error) = ((key, r) ∷ sent, error)
send is_done key r rest = ([], none)
send timed_out key r rest = ([], some query_timeout)

-- `accessor` is GetAccessor; none is nil.
module _ {F : Type 0} (floats : Floats F) (accessor : Entry → Option (Accessor F)) where
  abbrev pub matches_with : Option (Condition F) → Entry → Bool
  matches_with none r = true
  matches_with (some c) r = holds (accessor r) (λ acc. complies floats c acc)

  unfoldable pub matches_record : Query F → Entry → Bool
  matches_record q r = matches_with q.where_condition r

  unfoldable pub matches : Query F → Entry → Bool
  matches q r = if matches_key q r.base.db_key then matches_record q r else false

  -- Whether the executor sends a record.
  unfoldable pub selects : ℤ → Query F → Bool → Bool → List ℕ → Entry → Bool
  selects now q local internal key r =
      ((matches_key q key && matches_record q r) && check_validity now r.base.meta)
      && check_permission local internal r.base.meta

  -- The visits are in the order of the list. The result is what was sent, by key, and the error given to Finish.
  abbrev pub query_executor :
      (List ℕ → Answer) → ℤ → Query F → Bool → Bool → Dict Entry → Dict Entry × Option String
  query_executor answer now q local internal [] = ([], none)
  query_executor answer now q local internal ((key, r) ∷ db) =
      let rest = query_executor answer now q local internal db in
      if selects now q local internal key r then send (answer key) key r rest else rest
