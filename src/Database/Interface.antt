-- ===== src/Database/Interface.antt =====
-- database/interface.go and interface_cache.go: the operations on one record of an interface without delayed
-- writes. The cache is a parameter, as the library behind it is. All databases have storages of one type. An
-- operation reads the clock once.
pub mod Applied
pub mod Access
pub mod Writes
pub mod Changes
use portbase.Prelude.{
  ℕ, List, [], ◌∷◌, ◌++◌, Bool, true, false, not, ◌&&◌, Option, none, some, Result, panic, err, ok,
  if◌then◌else◌,
}
use portbase.Prelude.Int.{ℤ, pos, negsuc}
use portbase.Prelude.Dict.{Dict, lookup, insert}
use portbase.Record.Key.{Base, parse_key, update_meta}
use portbase.Record.Meta.{
  Meta, is_pos, is_neg, make_secret, make_crown_jewel, set_absolute_expiry, set_relativate_expiry,
  check_permission, is_deleted, get_relative_expiry, reset,
}
use portbase.Record.Meta
use portbase.Database.{
  Entry, Storage, Error, not_found, permission_denied, read_only, unknown_database,
}
use portbase.Database.Controller.{Controller, get, get_meta, put, is_read_only}
pub use portbase.Database.Interface.Applied.{
  Options, with_expiry, with_secret, with_crownjewel, on_meta,
}
unfoldable pub use portbase.Database.Interface.Applied.{
  change_meta, apply, has_all_permissions, has_access_permission,
}

-- gcache.Cache. A lookup may change the order of eviction.
pub record Cache (K : Type 0) : Type 0 where
  pub look_up : List ℕ → K → Option Entry × K
  pub set : List ℕ → Entry → K → K
  pub set_with_expire : List ℕ → Entry → ℤ → K → K
  pub forget : List ℕ → K → K

-- The databases by their names, and the cache of the interface, if it has one.
pub record World (S K : Type 0) : Type 0 where
  pub databases : Dict (Controller S)
  pub cache : Option K

abbrev pub ttl_of : ℤ → Option Meta → ℤ
ttl_of now none = negsuc 0
ttl_of now (some m) = get_relative_expiry now m

abbrev pub is_removed : Option Meta → Bool
is_removed none = false
is_removed (some m) = is_deleted m

abbrev pub full_key : List ℕ → List ℕ → List ℕ
full_key name key = name ++ (b':' ∷ key)

module _ {S K : Type 0} (storage : Storage S) (cache : Cache K) where
  abbrev pub looked_up : World S K → Option Entry × K → Option Entry × World S K
  looked_up w found = (found.0, record w { cache = some (found.1) })

  abbrev pub check : List ℕ → Option K → World S K → Option Entry × World S K
  check key none w = (none, w)
  check key (some k) w = looked_up w (cache.look_up key k)

  unfoldable pub check_cache : List ℕ → World S K → Option Entry × World S K
  check_cache key w = check key w.cache w

  abbrev pub cached : Entry → Bool → ℤ → K → K
  cached r remove ttl k =
      let key = full_key r.base.db_name r.base.db_key in
      if remove
      then cache.forget key k
      else if is_neg ttl
      then cache.set key r k
      else cache.set_with_expire key r ttl k

  abbrev pub update : Entry → Bool → ℤ → Option K → World S K → World S K
  update r remove ttl none w = w
  update r remove ttl (some k) w = record w { cache = some (cached r remove ttl k) }

  unfoldable pub update_cache : Entry → Bool → ℤ → World S K → World S K
  update_cache r remove ttl w = update r remove ttl w.cache w

  abbrev pub permitted : Options → Entry → Result Error Entry
  permitted o r = if has_access_permission o r.base.meta then ok r else err permission_denied

  -- A record from the database is put into the cache, if the caller may see it.
  abbrev pub from_database :
      ℤ → Options → Result Error Entry → World S K → Result Error Entry × World S K
  from_database now o panic w = (panic, w)
  from_database now o (err reason) w = (err reason, w)
  from_database now o (ok r) w =
      if has_access_permission o r.base.meta
      then (ok r, update_cache r false (ttl_of now r.base.meta) w)
      else (err permission_denied, w)

  abbrev pub cache_first :
      ℤ
      → Options
      → List ℕ
      → Controller S
      → Option Entry × World S K
      → Result Error Entry × World S K
  cache_first now o key c (some r, w) = (permitted o r, w)
  cache_first now o key c (none, w) = from_database now o (get storage now key c) w

  abbrev pub get_in :
      ℤ
      → Options
      → List ℕ
      → List ℕ
      → Bool
      → Option (Controller S)
      → World S K
      → Result Error Entry × World S K
  get_in now o name key must_be_writeable none w = (err unknown_database, w)
  get_in now o name key must_be_writeable (some c) w =
      if must_be_writeable && is_read_only storage c
      then (err read_only, w)
      else cache_first now o key c (check_cache (full_key name key) w)

  -- getRecord, with the name and the key in the database.
  unfoldable pub get_record :
      ℤ → Options → List ℕ → List ℕ → Bool → World S K → Result Error Entry × World S K
  get_record now o name key must_be_writeable w =
      get_in now o name key must_be_writeable (lookup name w.databases) w

  -- Get.
  unfoldable pub get_by_key : ℤ → Options → List ℕ → World S K → Result Error Entry × World S K
  get_by_key now o key w = get_record now o (parse_key key).0 (parse_key key).1 false w

  abbrev pub existence : Result Error Entry → Result Error Bool
  existence panic = panic
  existence (err not_found) = ok false
  existence (err permission_denied) = ok true
  existence (err reason) = err reason
  existence (ok r) = ok true

  unfoldable pub exists : ℤ → Options → List ℕ → World S K → Result Error Bool × World S K
  exists now o key w = let found = get_by_key now o key w in (existence (found.0), found.1)

  abbrev pub meta_permitted : Options → Option Meta → Result Error (Option Meta)
  meta_permitted o m = if has_access_permission o m then ok m else err permission_denied

  -- Metadata from the database is checked without the short way for all permissions.
  abbrev pub meta_from_database : Options → Result Error (Option Meta) → Result Error (Option Meta)
  meta_from_database o panic = panic
  meta_from_database o (err reason) = err reason
  meta_from_database o (ok m) =
      if check_permission o.local o.internal m then ok m else err permission_denied

  abbrev pub meta_cache_first :
      ℤ
      → Options
      → List ℕ
      → Controller S
      → Option Entry × World S K
      → Result Error (Option Meta) × World S K
  meta_cache_first now o key c (some r, w) = (meta_permitted o r.base.meta, w)
  meta_cache_first now o key c (none, w) = (meta_from_database o (get_meta storage now key c), w)

  -- getMeta of a database that is found, for a write.
  unfoldable pub get_meta_in :
      ℤ
      → Options
      → List ℕ
      → List ℕ
      → Controller S
      → World S K
      → Result Error (Option Meta) × World S K
  get_meta_in now o name key c w =
      if is_read_only storage c
      then (err read_only, w)
      else meta_cache_first now o key c (check_cache (full_key name key) w)

  abbrev pub stored :
      List ℕ → Result Error (Controller S) → World S K → Result Error (Unit {0}) × World S K
  stored name panic w = (panic, w)
  stored name (err reason) w = (err reason, w)
  stored name (ok c) w = (ok tt, record w { databases = insert name c w.databases })

  -- The write of Put, with the options applied; the cache is updated first.
  abbrev pub write : ℤ → Entry → Controller S → World S K → Result Error (Unit {0}) × World S K
  write now r c w =
      if is_read_only storage c
      then (err read_only, w)
      else stored r.base.db_name (put storage r c)
          (update_cache r (is_removed r.base.meta) (ttl_of now r.base.meta) w)

  abbrev pub write_checked :
      ℤ
      → Entry
      → Controller S
      → Result Error (Option Meta) × World S K
      → Result Error (Unit {0}) × World S K
  write_checked now r c (panic, w) = (panic, w)
  write_checked now r c (ok m, w) = write now r c w
  write_checked now r c (err not_found, w) = write now r c w
  write_checked now r c (err reason, w) = (err reason, w)

  abbrev pub put_in :
      ℤ → Options → Entry → Option (Controller S) → World S K → Result Error (Unit {0}) × World S K
  put_in now o r none w = (err unknown_database, w)
  put_in now o r (some c) w =
      if has_all_permissions o
      then write now (apply now o r) c w
      else write_checked now (apply now o r) c (get_meta_in now o r.base.db_name r.base.db_key c w)

  -- Put.
  unfoldable pub put_record : ℤ → Options → Entry → World S K → Result Error (Unit {0}) × World S K
  put_record now o r w = put_in now o r (lookup r.base.db_name w.databases) w

  -- PutNew: with new timestamps.
  unfoldable pub put_new : ℤ → Options → Entry → World S K → Result Error (Unit {0}) × World S K
  put_new now o r w = put_record now o (change_meta reset r) w

  abbrev pub save :
      (Entry → Entry)
      → List ℕ
      → Option (Controller S)
      → Result Error Entry × World S K
      → Result Error (Unit {0}) × World S K
  save f name c (panic, w) = (panic, w)
  save f name c (err reason, w) = (err reason, w)
  save f name none (ok r, w) = (err unknown_database, w)
  save f name (some c) (ok r, w) = stored name (put storage (f r) c) w

  -- The operations that get a record, apply the options, change its metadata and put it back.
  unfoldable pub change_record :
      ℤ → Options → (Meta → Meta) → List ℕ → World S K → Result Error (Unit {0}) × World S K
  change_record now o f key w =
      let name = (parse_key key).0 in
      save (λ r. change_meta f (apply now o r)) name (lookup name w.databases)
        (get_record now o name (parse_key key).1 true w)

  abbrev pub set_absolute_expiry_of :
      ℤ → Options → List ℕ → ℤ → World S K → Result Error (Unit {0}) × World S K
  set_absolute_expiry_of now o key time w = change_record now o (set_absolute_expiry time) key w

  abbrev pub set_relativate_expiry_of :
      ℤ → Options → List ℕ → ℤ → World S K → Result Error (Unit {0}) × World S K
  set_relativate_expiry_of now o key duration w =
      change_record now o (set_relativate_expiry duration) key w

  abbrev pub make_secret_of : ℤ → Options → List ℕ → World S K → Result Error (Unit {0}) × World S K
  make_secret_of now o key w = change_record now o make_secret key w

  abbrev pub make_crown_jewel_of :
      ℤ → Options → List ℕ → World S K → Result Error (Unit {0}) × World S K
  make_crown_jewel_of now o key w = change_record now o make_crown_jewel key w

  -- Delete.
  abbrev pub delete_record : ℤ → Options → List ℕ → World S K → Result Error (Unit {0}) × World S K
  delete_record now o key w = change_record now o (portbase.Record.Meta.delete now) key w
