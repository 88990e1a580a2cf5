-- ===== src/Database/Controller.antt =====
-- database/controller.go. Waiting for locks is left out; `now` is what time.Now().Unix() returns.
pub mod Permission
pub mod Refinement
use portbase.Prelude.{
  ℕ, suc, List, [], ◌∷◌, ◌++◌, Bool, true, false, not, ◌&&◌, Option, none, some, Result, panic, err,
  ok, ◌>>=◌, ltb, length, if◌then◌else◌,
}
use portbase.Prelude.Int.{ℤ}
use portbase.Record.Key.{Base}
use portbase.Record.Meta.{Meta, check_validity, check_permission, is_deleted}
use portbase.Database.{
  Entry, Storage, StorageError, Hook, Subscription, Error, not_found, read_only, shutting_down,
  from_storage,
}

pub record Controller (S : Type 0) : Type 0 where
  pub store : S
  pub shadow_delete : Bool
  pub hooks : List Hook
  pub subscriptions : List Subscription
  pub is_shutting_down : Bool

abbrev pub run_pre_get_hooks : List Hook → List ℕ → Result Error (Unit {0})
run_pre_get_hooks [] key = ok tt
run_pre_get_hooks (hook ∷ hooks) key =
    let rest = run_pre_get_hooks hooks key in
    if hook.uses_pre_get && hook.matches_key key then hook.pre_get key >>= (λ _. rest) else rest

abbrev pub run_post_get_hooks : List Hook → Entry → Result Error Entry
run_post_get_hooks [] r = ok r
run_post_get_hooks (hook ∷ hooks) r =
    (if hook.uses_post_get && hook.matches_record r then hook.post_get r else ok r)
    >>= (λ r'. run_post_get_hooks hooks r')

abbrev pub run_pre_put_hooks : List Hook → Entry → Result Error Entry
run_pre_put_hooks [] r = ok r
run_pre_put_hooks (hook ∷ hooks) r =
    (if hook.uses_pre_put && hook.matches_record r then hook.pre_put r else ok r)
    >>= (λ r'. run_pre_put_hooks hooks r')

-- A record goes to a subscriber whose feed has room, and past the others.
abbrev pub deliver : Entry → Subscription → Subscription
deliver r sub =
    if check_permission sub.local sub.internal r.base.meta && sub.wants r
    then (if ltb (length sub.feed) 1000 then record sub { feed = sub.feed ++ (r ∷ []) } else sub)
    else sub

abbrev pub deliver_all : Entry → List Subscription → List Subscription
deliver_all r [] = []
deliver_all r (sub ∷ subs) = deliver r sub ∷ deliver_all r subs

unfoldable pub notify_subscribers : {S : Type 0} → Entry → Controller S → Controller S
notify_subscribers r c = record c { subscriptions = deliver_all r c.subscriptions }

unfoldable pub push_update : {S : Type 0} → Entry → Controller S → Controller S
push_update r c = if c.is_shutting_down then c else notify_subscribers r c

unfoldable pub add_subscription : {S : Type 0} → Subscription → Controller S → Controller S
add_subscription sub c =
    if c.is_shutting_down then c else record c { subscriptions = c.subscriptions ++ (sub ∷ []) }

-- IsDeleted reads a field behind the pointer.
abbrev pub is_deleted_meta : Option Meta → Result Error Bool
is_deleted_meta none = panic
is_deleted_meta (some m) = ok (is_deleted m)

abbrev pub valid_entry : ℤ → Entry → Result Error Entry
valid_entry now r = if check_validity now r.base.meta then ok r else err not_found

abbrev pub valid_meta : ℤ → Option Meta → Result Error (Option Meta)
valid_meta now m = if check_validity now m then ok m else err not_found

module _ {S : Type 0} (storage : Storage S) where
  unfoldable pub is_read_only : Controller S → Bool
  is_read_only c = storage.is_read_only c.store

  abbrev pub get_running : ℤ → List ℕ → Controller S → Result Error Entry
  get_running now key c = run_pre_get_hooks c.hooks key >>= (λ _.
      from_storage (storage.get key c.store)
      >>= (λ r. run_post_get_hooks c.hooks r >>= (λ r'. valid_entry now r')))

  unfoldable pub get : ℤ → List ℕ → Controller S → Result Error Entry
  get now key c = if c.is_shutting_down then err shutting_down else get_running now key c

  abbrev pub stored_meta :
      Option (List ℕ → S → Result StorageError (Option Meta))
      → List ℕ
      → S
      → Result Error (Option Meta)
  stored_meta (some handler) key store = from_storage (handler key store)
  stored_meta none key store = from_storage (storage.get key store) >>= (λ r. ok r.base.meta)

  unfoldable pub get_meta : ℤ → List ℕ → Controller S → Result Error (Option Meta)
  get_meta now key c =
      if c.is_shutting_down
      then err shutting_down
      else stored_meta storage.get_meta key c.store >>= (λ m. valid_meta now m)

  -- What the storage is asked to do, and the record that the subscribers are told of.
  abbrev pub store_or_delete : Bool → Entry → S → Result Error (Entry × S)
  store_or_delete true r store =
      from_storage (storage.delete r.base.db_key store) >>= (λ store'. ok (r, store'))
  store_or_delete false r store = from_storage (storage.put r store)

  abbrev pub deletes_now : Bool → Option Meta → Result Error Bool
  deletes_now true m = ok false
  deletes_now false m = is_deleted_meta m

  abbrev pub put_hooked : Entry → Controller S → Result Error (Controller S)
  put_hooked r c = deletes_now c.shadow_delete r.base.meta >>= (λ now.
      store_or_delete now r c.store
      >>= (λ done. ok (notify_subscribers (done.0) (record c { store = done.1 }))))

  -- On an error the controller stays as it was.
  unfoldable pub put : Entry → Controller S → Result Error (Controller S)
  put r c =
      if c.is_shutting_down
      then err shutting_down
      else if is_read_only c
      then err read_only
      else run_pre_put_hooks c.hooks r >>= (λ r'. put_hooked r' c)
