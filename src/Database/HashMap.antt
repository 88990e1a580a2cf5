-- ===== src/Database/HashMap.antt =====
-- database/storage/hashmap/map.go. The map is an association list; locks and the queries are left out.
pub mod Laws
pub mod Maintenance
use portbase.Prelude.{
  ℕ, List, [], ◌∷◌, Bool, true, false, not, ◌&&◌, ◌||◌, Option, none, some, Result, panic, err, ok,
  if◌then◌else◌,
}
use portbase.Prelude.Int.{ℤ, ltb_ℤ}
use portbase.Prelude.Dict.{Dict, lookup, insert, remove}
use portbase.Record.Key.{Base}
use portbase.Record.Meta.{Meta, is_zero, is_pos, is_deleted}
use portbase.Database.{Entry, Storage, StorageError, entry_not_found}

abbrev pub or_not_found {ℓ} : {A : Type ℓ} → Option A → Result StorageError A
or_not_found none = err entry_not_found
or_not_found (some a) = ok a

unfoldable pub get : List ℕ → Dict Entry → Result StorageError Entry
get key db = or_not_found (lookup key db)

abbrev pub meta_of_entry : Option Entry → Result StorageError (Option Meta)
meta_of_entry none = err entry_not_found
meta_of_entry (some r) = ok r.base.meta

unfoldable pub get_meta : List ℕ → Dict Entry → Result StorageError (Option Meta)
get_meta key db = meta_of_entry (lookup key db)

unfoldable pub put : Entry → Dict Entry → Result StorageError (Entry × Dict Entry)
put r db = ok (r, insert r.base.db_key r db)

unfoldable pub delete : List ℕ → Dict Entry → Result StorageError (Dict Entry)
delete key db = ok (remove key db)

-- The metadata of a record in a batch is read behind the pointer.
abbrev pub batch_with : Bool → Option Meta → Entry → Dict Entry → Option (Dict Entry)
batch_with true m r db = some (insert r.base.db_key r db)
batch_with false none r db = none
batch_with false (some m) r db =
    if is_deleted m then some (remove r.base.db_key db) else some (insert r.base.db_key r db)

-- None is the panic on a record without metadata.
unfoldable pub batch_put_or_delete : Bool → Entry → Dict Entry → Option (Dict Entry)
batch_put_or_delete shadow_delete r db = batch_with shadow_delete r.base.meta r db

abbrev pub hashmap : Storage (Dict Entry)
hashmap = record {
  get = get;
  get_meta = some get_meta;
  put = put;
  delete = delete;
  is_read_only = λ db. false;
}

unfoldable pub is_expired : ℤ → Meta → Bool
is_expired now m = (is_zero m.deleted && is_pos m.expires) && ltb_ℤ m.expires now

abbrev pub is_purged : Bool → ℤ → Meta → Bool
is_purged shadow_delete threshold m =
    is_pos m.deleted && (not shadow_delete || ltb_ℤ m.deleted threshold)

-- What the maintenance makes of one record: none deletes it. A record without metadata, at which the code
-- panics, is left alone.
abbrev pub with_deleted : ℤ → Entry → Meta → Entry
with_deleted time r m = record r {
  base = record r.base { meta = some (record m { deleted = time }) };
}

abbrev pub maintain_with : ℤ → ℤ → Bool → Entry → Option Meta → Option Entry
maintain_with now threshold shadow_delete r none = some r
maintain_with now threshold shadow_delete r (some m) =
    if is_expired now m
    then (if shadow_delete then some (with_deleted m.expires r m) else none)
    else if is_purged shadow_delete threshold m
    then none
    else some r

unfoldable pub maintain : ℤ → ℤ → Bool → Entry → Option Entry
maintain now threshold shadow_delete r = maintain_with now threshold shadow_delete r r.base.meta

abbrev pub keep_if {ℓ} : {V : Type ℓ} → List ℕ → Option V → Dict V → Dict V
keep_if key none db = db
keep_if key (some v) db = (key, v) ∷ db

-- MaintainRecordStates; the visits are in the order of the list, and no context is cancelled.
abbrev pub maintain_record_states : ℤ → ℤ → Bool → Dict Entry → Dict Entry
maintain_record_states now threshold shadow_delete [] = []
maintain_record_states now threshold shadow_delete ((key, r) ∷ db) =
    keep_if key (maintain now threshold shadow_delete r)
      (maintain_record_states now threshold shadow_delete db)
