-- ===== src/Database/Controller/Refinement.antt =====
-- A controller without hooks as a map of the valid records.
use portbase.Prelude.{
  ℕ, ◌≡◌, refl, sym, ◌∙◌, ap, List, [], Bool, true, false, Option, none, some, Result, panic, err,
  ok, ◌>>=◌, bind_inv, ok_inv, err-≢, if◌then◌else◌, Bool-cases, if_inv, inl, inr, arith,
}
use mathlib.Core.Path.{subst}
use portbase.Prelude.Int.{ℤ}
use portbase.Prelude.Dict.{same}
use portbase.Record.Meta.{Meta, check_validity, is_deleted}
use portbase.Database.{
  Entry, Storage, StorageError, entry_not_found, Error, not_found, shutting_down, from_storage,
}
use portbase.Database.Controller.{
  Controller, get, put, put_hooked, run_pre_put_hooks, notify_subscribers, store_or_delete,
  deletes_now, is_read_only, valid_entry, stored_meta, get_meta, valid_meta, run_pre_get_hooks,
  run_post_get_hooks,
}

-- What a client relies on: a storage is a map, and gives back the record that it was given.
pub record IsMap {S : Type 0} (storage : Storage S) : Type 0 where
  pub put-stored : (r r' : Entry) (s s' : S) → storage.put r s ≡ ok (r', s') → r' ≡ r
  pub get-put :
      (r r' : Entry) (s s' : S) (key : List ℕ)
      → storage.put r s ≡ ok (r', s')
      → storage.get key s' ≡ (if same r.base.db_key key then ok r else storage.get key s)
  pub get-delete :
      (deleted : List ℕ) (s s' : S) (key : List ℕ)
      → storage.delete deleted s ≡ ok s'
      → storage.get key s' ≡ (if same deleted key then err entry_not_found else storage.get key s)
  pub handler-get :
      (handler : List ℕ → S → Result StorageError (Option Meta)) (key : List ℕ) (s : S)
      → storage.get_meta ≡ some handler
      → handler key s ≡ (storage.get key s >>= (λ r. ok r.base.meta))

from_storage_inv {ℓ} :
    {A : Type ℓ} (r : Result StorageError A) {a : A} → from_storage r ≡ ok a → r ≡ ok a
from_storage_inv (ok a) e = ap ok (ok_inv e)
from_storage_inv panic e = ground arith
from_storage_inv (err reason) e = absurd (err-≢ e)

from_storage-meta :
    (r : Result StorageError Entry)
    → from_storage (r >>= (λ r'. ok r'.base.meta)) ≡ (from_storage r >>= (λ r'. ok r'.base.meta))
from_storage-meta (ok r) = refl
from_storage-meta panic = refl
from_storage-meta (err reason) = refl

valid_meta-entry :
    (now : ℤ) (r : Result Error Entry)
    → ((r >>= (λ r'. ok r'.base.meta)) >>= (λ m. valid_meta now m))
      ≡ ((r >>= (λ r'. valid_entry now r')) >>= (λ r'. ok r'.base.meta))
valid_meta-entry now (ok r) = if_valid (check_validity now r.base.meta)
  where
    if_valid :
        (b : Bool)
        → ◌≡◌ {A = Result Error (Option Meta)}
            (if b then ok r.base.meta else err not_found)
            ((if b then ok r else err not_found) >>= (λ r'. ok r'.base.meta))
    if_valid true = refl
    if_valid false = refl
valid_meta-entry now panic = refl
valid_meta-entry now (err reason) = refl

module _ {S : Type 0} (storage : Storage S) (laws : IsMap storage) where
  -- What Get makes of the answer of the storage.
  abbrev pub answer : ℤ → Result StorageError Entry → Result Error Entry
  answer now found = from_storage found >>= (λ r. valid_entry now r)

  pub get_shut_down :
      (now : ℤ) (key : List ℕ) (c : Controller S)
      → c.is_shutting_down ≡ true
      → get storage now key c ≡ err shutting_down
  unfolding get
  get_shut_down now key c down = rw down refl

  pub get-answer :
      (now : ℤ) (key : List ℕ) (c : Controller S)
      → c.hooks ≡ []
      → c.is_shutting_down ≡ false
      → get storage now key c ≡ answer now (storage.get key c.store)
  unfolding get
  get-answer now key c hooks running = rw running (with_hooks c.hooks hooks)
    where
      with_hooks :
          (hs : List _)
          → hs ≡ []
          → (run_pre_get_hooks hs key >>= (λ _.
              from_storage (storage.get key c.store)
              >>= (λ r. run_post_get_hooks hs r >>= (λ r'. valid_entry now r'))))
            ≡ answer now (storage.get key c.store)
      with_hooks hs e = rw e refl

  deletes_now_inv :
      (now : ℤ) (shadow b : Bool) (m : Option Meta)
      → deletes_now storage shadow m ≡ ok b
      → b ≡ true
      → check_validity now m ≡ false
  unfolding check_validity is_deleted
  deletes_now_inv now true b m e is = ground (arith, ok_inv e)
  deletes_now_inv now false b none e is = ground arith
  deletes_now_inv now false b (some m) e is = rw (ok_inv e ∙ is) refl

  answer-if :
      (now : ℤ) (b : Bool) (x y : Result StorageError Entry)
      → answer now (if b then x else y) ≡ (if b then answer now x else answer now y)
  answer-if now true x y = refl
  answer-if now false x y = refl

  invalid-answer :
      (now : ℤ) (r : Entry)
      → check_validity now r.base.meta ≡ false
      → valid_entry now r ≡ err not_found
  invalid-answer now r e = rw e refl

  store_or_delete-get :
      (now : ℤ) (b : Bool) (r r' : Entry) (s s' : S) (key : List ℕ)
      → (b ≡ true → check_validity now r.base.meta ≡ false)
      → store_or_delete storage b r s ≡ ok (r', s')
      → answer now (storage.get key s')
        ≡ (if same r.base.db_key key then valid_entry now r else answer now (storage.get key s))
  store_or_delete-get now true r r' s s' key invalid e =
      let done = bind_inv _ (from_storage (storage.delete r.base.db_key s)) e in
      let deleted = from_storage_inv (storage.delete r.base.db_key s) (done.1) in
      ap (answer now) (
        laws.get-delete r.base.db_key s s' key
          (deleted ∙ ap ok (ap (λ (p : Entry × S). p.1) (ok_inv (done.2)))))
      ∙ answer-if now (same r.base.db_key key) (err entry_not_found) (storage.get key s)
      ∙ ap (λ x. if same r.base.db_key key then x else answer now (storage.get key s))
          (sym (invalid-answer now r (invalid refl)))
  store_or_delete-get now false r r' s s' key invalid e =
      ap (answer now) (laws.get-put r r' s s' key (from_storage_inv (storage.put r s) e))
      ∙ answer-if now (same r.base.db_key key) (ok r) (storage.get key s)

  run_pre_put_none :
      (c : Controller S) (r r' : Entry)
      → c.hooks ≡ []
      → run_pre_put_hooks c.hooks r ≡ ok r'
      → r ≡ r'
  run_pre_put_none c r r' none_left e =
      ok_inv (subst (λ hs. run_pre_put_hooks hs r ≡ ok r') none_left e)

  put_hooked-get :
      (now : ℤ) (r : Entry) (c c' : Controller S) (key : List ℕ)
      → put_hooked storage r c ≡ ok c'
      → (answer now (storage.get key c'.store) ≡ (
          if same r.base.db_key key
          then valid_entry now r
          else answer now (storage.get key c.store)))
        × (c'.hooks ≡ c.hooks)
        × (c'.is_shutting_down ≡ c.is_shutting_down)
  unfolding notify_subscribers
  put_hooked-get now r c c' key e =
      let decided = bind_inv _ (deletes_now storage c.shadow_delete r.base.meta) e in
      let stored = bind_inv _ (store_or_delete storage (decided.0) r c.store) (decided.2) in
      rw⁻¹ (ok_inv (stored.2)) (
        store_or_delete-get now (decided.0) r (stored.0.0) c.store (stored.0.1) key
            (deletes_now_inv now c.shadow_delete (decided.0) r.base.meta (decided.1)) (stored.1),
        refl,
        refl,
      )

  put_inv :
      (r : Entry) (c c' : Controller S)
      → put storage r c ≡ ok c'
      → (c.is_shutting_down ≡ false)
        × ((r' : Entry) × (run_pre_put_hooks c.hooks r ≡ ok r') × (put_hooked storage r' c ≡ ok c'))
  unfolding put
  put_inv r c c' e = elim (if_inv c.is_shutting_down e) [
    | inl (_, refused) ↦ absurd (err-≢ refused)
    | inr (running, checked) ↦ elim (if_inv (is_read_only storage c) checked) [
      | inl (_, refused) ↦ absurd (err-≢ refused)
      | inr (_, written) ↦ (running, bind_inv _ (run_pre_put_hooks c.hooks r) written)
    ]
  ]

  -- Over a storage that is a map, behind a Put that succeeds on a controller without hooks, Get of the
  -- record's key gives the record if it is valid at that time and the not-found error if it is deleted or has
  -- expired, whether deletes are immediate or shadow deletes; Get of another key gives what it gave.
  pub put-get :
      (now : ℤ) (r : Entry) (c c' : Controller S) (key : List ℕ)
      → c.hooks ≡ []
      → put storage r c ≡ ok c'
      → get storage now key c'
        ≡ (if same r.base.db_key key then valid_entry now r else get storage now key c)
  put-get now r c c' key hooks e =
      let parts = put_inv r c c' e in
      let same_record = run_pre_put_none c r (parts.1.0) hooks (parts.1.1) in
      let done =
        put_hooked-get now r c c' key
          (subst (λ x. put_hooked storage x c ≡ ok c') (sym same_record) (parts.1.2)) in
      get-answer now key c' (done.1 ∙ hooks) (done.2 ∙ parts.0)
      ∙ done.0
      ∙ ap (λ x. if same r.base.db_key key then valid_entry now r else x)
          (sym (get-answer now key c hooks (parts.0)))

  -- Over a storage that is a map, GetMeta of a controller without hooks gives the metadata of the record that Get
  -- gives, and its errors, whether the storage has a handler for metadata or not.
  pub get_meta-get :
      (now : ℤ) (key : List ℕ) (c : Controller S)
      → c.hooks ≡ []
      → get_meta storage now key c ≡ (get storage now key c >>= (λ r. ok r.base.meta))
  unfolding get_meta
  get_meta-get now key c hooks = elim (Bool-cases c.is_shutting_down) [
    | inl down ↦ rw (get_shut_down now key c down, down) refl
    | inr running ↦
        rw (get-answer now key c hooks running, running, stored storage.get_meta refl)
          (valid_meta-entry now (from_storage (storage.get key c.store)))
  ]
    where
      stored :
          (handler : Option (List ℕ → S → Result StorageError (Option Meta)))
          → storage.get_meta ≡ handler
          → stored_meta storage handler key c.store
            ≡ (from_storage (storage.get key c.store) >>= (λ r. ok r.base.meta))
      stored none e = refl
      stored (some handler) e =
          ap (λ x. from_storage x) (laws.handler-get handler key c.store e)
          ∙ from_storage-meta (storage.get key c.store)
