-- ===== src/Database/Tests.antt =====
-- A hash map with one record, and interfaces that may see it or not.
use portbase.Prelude.{
  ℕ, ◌≡◌, refl, List, [], ◌∷◌, Bool, true, false, Option, none, some, err, ok, ◌>>=◌, ltb, ◌==◌,
  if◌then◌else◌, arith, ◌⊎◌,
}
use Prim.Native.String.{String}
use portbase.Prelude.Int.{pos}
use portbase.Prelude.Dict.{Dict, lookup, insert, remove, same}
use portbase.Record.Key.{parse_key, update_meta, set_updated}
use portbase.Record.Meta.{Meta, check_validity, check_permission, is_deleted}
use portbase.Database.{Entry, Storage, Subscription, Error, not_found, permission_denied, read_only}
use portbase.Database.Controller.{Controller, is_read_only, valid_entry, notify_subscribers}
use portbase.Database.Controller
use portbase.Database.Controller.Permission.{AreFair, Step, Reaches, Reaches-AreFair}
use portbase.Database.Controller.Refinement.{put-get, get_meta-get}
use portbase.Database.HashMap.{hashmap, maintain_record_states}
use portbase.Database.HashMap
use portbase.Database.HashMap.Laws.{hashmap-IsMap}
use portbase.Database.HashMap.Maintenance.{get-maintain_record_states}
use portbase.Database.Query.{
  Query, Accessor, Floats, negation, string_condition, contains, matches_key, matches_record,
  complies, compare_strings, selects, query_executor, Answer, taken, timed_out,
}
use portbase.Database.Query.Results.{IsBrokenOff, query_executor-get}
use portbase.Database.Interface.{
  Options, Cache, World, has_access_permission, has_all_permissions, check_cache, get_record,
  get_by_key, get_meta_in, permitted, put_record, apply, change_meta, change_record, delete_record,
}
use portbase.Database.Interface.Access.{
  get_by_key-IsPermitted, get_by_key-IsValid, put_record_denied,
}
use portbase.Database.Interface.Changes.{put_record-get_record, delete_record-get_by_key}

abbrev meta : Meta
meta = record {
  created = pos 5;
  modified = pos 5;
  expires = pos 50;
  deleted = pos 0;
  secret = true;
  cronjewel = false;
}

abbrev entry : Entry
entry = record {
  base = record { db_name = 1 ∷ []; db_key = 2 ∷ []; meta = some meta };
  content = 9 ∷ [];
}

abbrev store : Dict Entry
store = (2 ∷ [], entry) ∷ []

abbrev secrets_feed : Subscription
secrets_feed = record { wants = λ r. true; local = false; internal = true; feed = [] }

abbrev controller : Controller (Dict Entry)
controller = record {
  store = store;
  shadow_delete = true;
  hooks = [];
  subscriptions = secrets_feed ∷ [];
  is_shutting_down = false;
}

-- A cache without a bound.
abbrev cache : Cache (Dict Entry)
cache = record {
  look_up = λ key k. (lookup key k, k);
  set = insert;
  set_with_expire = λ key r ttl k. insert key r k;
  forget = remove;
}

abbrev world : World (Dict Entry) (Dict Entry)
world = record { databases = (1 ∷ [], controller) ∷ []; cache = none }

abbrev options : Bool → Options
options internal = record {
  local = false;
  internal = internal;
  always_make_secret = true;
  always_make_crownjewel = false;
  always_set_relativate_expiry = pos 0;
  always_set_absolute_expiry = pos 0;
}

abbrev key : List ℕ
key = 1 ∷ b':' ∷ 2 ∷ []

put_it :
    (c : Controller (Dict Entry)) × (portbase.Database.Controller.put hashmap entry controller
      ≡ ok c)
unfolding portbase.Database.Controller.put portbase.Database.HashMap.put is_read_only
    notify_subscribers
put_it = (_, refl)

Reaches-AreFair_example : AreFair (put_it.0)
Reaches-AreFair_example =
    Reaches-AreFair hashmap {start = controller} ((tt, omega arith), tt)
      (Reaches.then Reaches.here (Step.puts entry (put_it.0) (put_it.1)))

put-get_example : portbase.Database.Controller.get hashmap (pos 70) (2 ∷ []) (put_it.0) ≡ (
    if same (2 ∷ []) (2 ∷ [])
    then valid_entry (pos 70) entry
    else portbase.Database.Controller.get hashmap (pos 70) (2 ∷ []) controller)
put-get_example =
    put-get hashmap hashmap-IsMap (pos 70) entry controller (put_it.0) (2 ∷ []) refl (put_it.1)

get_meta-get_example :
    portbase.Database.Controller.get_meta hashmap (pos 40) (2 ∷ []) controller ≡ (
      portbase.Database.Controller.get hashmap (pos 40) (2 ∷ []) controller
      >>= (λ r. ok r.base.meta))
get_meta-get_example = get_meta-get hashmap hashmap-IsMap (pos 40) (2 ∷ []) controller refl

get-maintain_record_states_example :
    portbase.Database.Controller.get hashmap
      (pos 70)
      (2 ∷ [])
      (record controller { store = maintain_record_states (pos 60) (pos 3) true store })
    ≡ portbase.Database.Controller.get hashmap (pos 70) (2 ∷ []) controller
get-maintain_record_states_example =
    get-maintain_record_states (pos 60) (pos 3) (pos 70) true (2 ∷ []) controller refl (refl, tt)
      (omega arith)

got : (get_by_key hashmap cache (pos 20) (options true) key world).0 ≡ ok entry
unfolding get_by_key get_record parse_key is_read_only check_cache portbase.Database.Controller.get
    portbase.Database.HashMap.get check_validity has_access_permission has_all_permissions
    check_permission
got = refl

get_by_key-IsPermitted_example : has_access_permission (options true) (some meta) ≡ true
get_by_key-IsPermitted_example =
    get_by_key-IsPermitted hashmap cache (pos 20) (options true) key world entry got

get_by_key-IsValid_example : check_validity (pos 20) (some meta) ≡ true
get_by_key-IsValid_example =
    get_by_key-IsValid hashmap cache (pos 20) (options true) key world entry refl got

hidden : has_access_permission (options false) (some meta) ≡ false
unfolding has_access_permission has_all_permissions check_permission
hidden = refl

meta_found :
    portbase.Database.Controller.get_meta hashmap (pos 20) (2 ∷ []) controller ≡ ok (some meta)
unfolding portbase.Database.Controller.get_meta portbase.Database.HashMap.get_meta check_validity
meta_found = refl

put_record_denied_example :
    put_record hashmap cache (pos 20) (options false) entry world
    ≡ (err (if is_read_only hashmap controller then read_only else permission_denied), world)
put_record_denied_example =
    put_record_denied hashmap cache (pos 20) (options false) entry world controller (some meta) refl
      refl meta_found hidden

written : (put_record hashmap cache (pos 20) (options true) entry world).0 ≡ ok tt
unfolding put_record get_meta_in is_read_only check_cache portbase.Database.Controller.get_meta
    portbase.Database.HashMap.get_meta check_validity check_permission has_all_permissions
    portbase.Database.Controller.put portbase.Database.HashMap.put apply change_meta update_meta
    set_updated is_deleted
written = refl

put_record-get_record_example :
    (get_record hashmap cache
      (pos 30)
      (options false)
      (1 ∷ [])
      (2 ∷ [])
      false
      (put_record hashmap cache (pos 20) (options true) entry world).1).0
    ≡ (if same (2 ∷ []) (2 ∷ [])
        then valid_entry (pos 30) (apply (pos 20) (options true) entry)
          >>= permitted hashmap cache (options false)
        else (get_record hashmap cache (pos 30) (options false) (1 ∷ []) (2 ∷ []) false world).0)
put_record-get_record_example =
    put_record-get_record hashmap cache (pos 20) (pos 30) (options true) (options false) entry
      controller world (2 ∷ []) hashmap-IsMap refl refl refl written

parsed : parse_key key ≡ (1 ∷ [], 2 ∷ [])
unfolding parse_key
parsed = refl

found : portbase.Database.Controller.get hashmap (pos 20) (parse_key key).1 controller ≡ ok entry
unfolding parse_key portbase.Database.Controller.get portbase.Database.HashMap.get check_validity
found = refl

named : lookup (parse_key key).0 world.databases ≡ some controller
unfolding parse_key
named = refl

own_key : entry.base.db_key ≡ (parse_key key).1
unfolding parse_key
own_key = refl

deleted : (delete_record hashmap cache (pos 20) (options true) key world).0 ≡ ok tt
unfolding change_record get_record parse_key is_read_only check_cache
    portbase.Database.Controller.get portbase.Database.HashMap.get check_validity
    has_access_permission has_all_permissions check_permission portbase.Database.Controller.put
    portbase.Database.HashMap.put apply change_meta update_meta set_updated is_deleted
deleted = refl

delete_record-get_by_key_example :
    (get_by_key hashmap cache
      (pos 30)
      (options true)
      key
      (delete_record hashmap cache (pos 20) (options true) key world).1).0
    ≡ err not_found
delete_record-get_by_key_example =
    delete_record-get_by_key hashmap cache (pos 20) (pos 30) (options true) (options true) key
      controller entry world hashmap-IsMap refl named refl found own_key refl deleted

abbrev floats : Floats ℕ
floats = record { below = λ a b. ltb a b; equal = λ a b. a == b }

-- The content of a record under every key.
abbrev accessor : Entry → Option (Accessor ℕ)
accessor r = some (record {
  get_string = λ k. some r.content;
  get_int = λ k. none;
  get_float = λ k. none;
  get_bool = λ k. none;
  has_key = λ k. true;
})

abbrev query : Query ℕ
query = record {
  db_name = 1 ∷ [];
  db_key_prefix = 2 ∷ [];
  where_condition = some (negation (string_condition [] contains (7 ∷ [])));
  order_by = [];
  limit = pos 1;
  offset = pos 0;
}

-- The receiver takes the first record, and is late for any other.
abbrev slow_receiver : List ℕ → Answer
slow_receiver key = if same key (2 ∷ []) then taken else timed_out

abbrev sent : Dict Entry × Option String
sent = query_executor floats accessor slow_receiver (pos 20) query false true store

query_executor-get_example :
    (lookup (2 ∷ []) sent.0 ≡ some entry
      → (portbase.Database.Controller.get hashmap (pos 20) (2 ∷ []) controller ≡ ok entry)
        × (check_permission false true (some meta) ≡ true)
        × (matches_key query (2 ∷ []) ≡ true)
        × (matches_record floats accessor query entry ≡ true))
    × ((portbase.Database.Controller.get hashmap (pos 20) (2 ∷ []) controller ≡ ok entry)
          × (check_permission false true (some meta) ≡ true)
          × (matches_key query (2 ∷ []) ≡ true)
          × (matches_record floats accessor query entry ≡ true)
        → (lookup (2 ∷ []) sent.0 ≡ some entry)
          ⊎ IsBrokenOff floats accessor (pos 20) query false true slow_receiver sent.1 store)
query_executor-get_example =
    query_executor-get floats accessor (pos 20) query false true slow_receiver (2 ∷ []) entry
      controller refl refl (refl, tt)

is_sent : lookup (2 ∷ []) sent.0 ≡ some entry
unfolding selects matches_record matches_key complies compare_strings check_validity
    check_permission
is_sent = refl
