-- ===== src/Database.antt =====
-- database/storage/interface.go, database/hook.go and subscription.go: records, what a storage does, hooks
-- and subscriptions. A record is a value: its base and its content as bytes. A query is known by the
-- keys and the records that it matches.
pub mod Controller
pub mod HashMap
pub mod Interface
pub mod Query
mod Tests
use portbase.Prelude.{
  ℕ, zero, suc, List, [], ◌∷◌, Bool, Option, none, some, Result, panic, err, ok, ltb, map_err,
}
use portbase.Record.Key.{Base}
use portbase.Record.Meta.{Meta}

pub record Entry : Type 0 where
  pub base : Base
  pub content : List ℕ

pub data StorageError : Type 0 where
  entry_not_found storage_failed : StorageError

pub data Error : Type 0 where
  not_found permission_denied read_only shutting_down storage_error hook_refused unknown_database :
      Error

-- storage.Interface, and GetMeta of a storage.MetaHandler. `S` is what the storage holds.
pub record Storage (S : Type 0) : Type 0 where
  pub get : List ℕ → S → Result StorageError Entry
  pub get_meta : Option (List ℕ → S → Result StorageError (Option Meta))
  pub put : Entry → S → Result StorageError (Entry × S)
  pub delete : List ℕ → S → Result StorageError S
  pub is_read_only : S → Bool

-- Hook and RegisteredHook.
pub record Hook : Type 0 where
  pub matches_key : List ℕ → Bool
  pub matches_record : Entry → Bool
  pub uses_pre_get : Bool
  pub pre_get : List ℕ → Result Error (Unit {0})
  pub uses_post_get : Bool
  pub post_get : Entry → Result Error Entry
  pub uses_pre_put : Bool
  pub pre_put : Entry → Result Error Entry

-- The feed is a channel that holds 1000 records at most.
pub record Subscription : Type 0 where
  pub wants : Entry → Bool
  pub local : Bool
  pub internal : Bool
  pub feed : List Entry

abbrev pub storage_reason : StorageError → Error
storage_reason entry_not_found = not_found
storage_reason storage_failed = storage_error

-- The storage's not-found error becomes the database's.
abbrev pub from_storage {ℓ} : {A : Type ℓ} → Result StorageError A → Result Error A
from_storage r = map_err storage_reason r
