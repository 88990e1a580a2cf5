-- ===== src/Database/Interface/Access.antt =====
-- Who is given a record, and who may overwrite one.
use portbase.Prelude.{
  ℕ, ◌≡◌, refl, sym, ◌∙◌, ap, List, Bool, true, false, ◌&&◌, Option, none, some, Result, panic, err,
  ok, bind_inv, ok_inv, err-≢, if◌then◌else◌, if_inv, if_false, inl, inr, arith,
}
use mathlib.Core.Bool.{false≢true}
use portbase.Prelude.Int.{ℤ}
use portbase.Prelude.Dict.{lookup}
use portbase.Record.Key.{parse_key}
use portbase.Record.Meta.{Meta, check_validity, check_permission}
use portbase.Database.{Entry, Storage, Error, permission_denied, read_only, from_storage}
use portbase.Database.Controller.{
  Controller, get, get_meta, is_read_only, valid_entry, run_pre_get_hooks, run_post_get_hooks,
}
use portbase.Database.Interface.{
  Options, Cache, World, has_access_permission, has_all_permissions, check_cache, cache_first,
  from_database, get_in, get_record, get_by_key, permitted, put_record, put_in, write_checked,
  meta_cache_first, meta_from_database, get_meta_in, full_key, apply,
}

pub fst-if {ℓ κ} :
    {A : Type ℓ} {B : Type κ} (b : Bool) (x y : A × B)
    → (if b then x else y).0 ≡ (if b then x.0 else y.0)
fst-if true x y = refl
fst-if false x y = refl

module _ {S : Type 0} (storage : Storage S) where
  valid_entry-inv :
      (now : ℤ) (r r' : Entry) → valid_entry now r ≡ ok r' → check_validity now r'.base.meta ≡ true
  valid_entry-inv now r r' e = elim (if_inv (check_validity now r.base.meta) e) [
    | inl (valid, is) ↦ rw⁻¹ (ok_inv is) valid
    | inr (_, refused) ↦ absurd (err-≢ refused)
  ]

  -- The controller gives valid records only.
  pub get-IsValid :
      (now : ℤ) (key : List ℕ) (c : Controller S) (r : Entry)
      → get storage now key c ≡ ok r
      → check_validity now r.base.meta ≡ true
  unfolding get
  get-IsValid now key c r e = elim (if_inv c.is_shutting_down e) [
    | inl (_, refused) ↦ absurd (err-≢ refused)
    | inr (_, running) ↦
        let hooked = bind_inv _ (run_pre_get_hooks c.hooks key) running in
        let found = bind_inv _ (from_storage (storage.get key c.store)) (hooked.2) in
        let changed = bind_inv (valid_entry now) (run_post_get_hooks c.hooks (found.0)) (found.2) in
        valid_entry-inv now (changed.0) r (changed.2)
  ]

module _ {S K : Type 0} (storage : Storage S) (cache : Cache K) where
  permitted-inv :
      (o : Options) (r r' : Entry)
      → permitted storage cache o r ≡ ok r'
      → has_access_permission o r'.base.meta ≡ true
  permitted-inv o r r' e = elim (if_inv (has_access_permission o r.base.meta) e) [
    | inl (access, is) ↦ rw⁻¹ (ok_inv is) access
    | inr (_, refused) ↦ absurd (err-≢ refused)
  ]

  from_database-inv :
      (now : ℤ) (o : Options) (found : Result Error Entry) (w : World S K) (r : Entry)
      → (from_database storage cache now o found w).0 ≡ ok r
      → (found ≡ ok r) × (has_access_permission o r.base.meta ≡ true)
  from_database-inv now o panic w r e = ground arith
  from_database-inv now o (err reason) w r e = absurd (err-≢ e)
  from_database-inv now o (ok r') w r e =
      elim (if_inv (has_access_permission o r'.base.meta)
        (sym (fst-if (has_access_permission o r'.base.meta) _ _) ∙ e)) [
          | inl (access, is) ↦ rw⁻¹ (ok_inv is) (refl, access)
          | inr (_, refused) ↦ absurd (err-≢ refused)
        ]

  cache_first-IsPermitted :
      (now : ℤ) (o : Options) (key : List ℕ) (c : Controller S) (found : Option Entry × World S K)
      (r : Entry)
      → (cache_first storage cache now o key c found).0 ≡ ok r
      → has_access_permission o r.base.meta ≡ true
  cache_first-IsPermitted now o key c (some r', w) r e = permitted-inv o r' r e
  cache_first-IsPermitted now o key c (none, w) r e =
      (from_database-inv now o (get storage now key c) w r e).1

  get_in-IsPermitted :
      (now : ℤ) (o : Options) (name key : List ℕ) (write : Bool) (found : Option (Controller S))
      (w : World S K) (r : Entry)
      → (get_in storage cache now o name key write found w).0 ≡ ok r
      → has_access_permission o r.base.meta ≡ true
  get_in-IsPermitted now o name key write none w r e = absurd (err-≢ e)
  get_in-IsPermitted now o name key write (some c) w r e =
      elim (if_inv (write && is_read_only storage c)
        (sym (fst-if (write && is_read_only storage c) _ _) ∙ e)) [
          | inl (_, refused) ↦ absurd (err-≢ refused)
          | inr (_, read) ↦
              cache_first-IsPermitted now o key c (check_cache storage cache (full_key name key) w)
                r read
        ]

  -- A record that Get returns is one that the options of the interface give access to, whatever the storage, the
  -- hooks and the cache do.
  pub get_by_key-IsPermitted :
      (now : ℤ) (o : Options) (key : List ℕ) (w : World S K) (r : Entry)
      → (get_by_key storage cache now o key w).0 ≡ ok r
      → has_access_permission o r.base.meta ≡ true
  unfolding get_by_key get_record
  get_by_key-IsPermitted now o key w r e =
      get_in-IsPermitted now o (parse_key key).0 (parse_key key).1 false
        (lookup (parse_key key).0 w.databases) w r e

  pub no_cache :
      (key : List ℕ) (w : World S K) → w.cache ≡ none → check_cache storage cache key w ≡ (none, w)
  unfolding check_cache
  no_cache key w e = rw e refl

  pub get_in_uncached :
      (now : ℤ) (o : Options) (name key : List ℕ) (c : Controller S) (w : World S K)
      → w.cache ≡ none
      → get_in storage cache now o name key false (some c) w
        ≡ from_database storage cache now o (get storage now key c) w
  get_in_uncached now o name key c w e =
      ap (cache_first storage cache now o key c) (no_cache (full_key name key) w e)

  -- Without a cache, a record that Get returns is also valid at that time: it is not deleted and has
  -- not expired.
  pub get_by_key-IsValid :
      (now : ℤ) (o : Options) (key : List ℕ) (w : World S K) (r : Entry)
      → w.cache ≡ none
      → (get_by_key storage cache now o key w).0 ≡ ok r
      → check_validity now r.base.meta ≡ true
  unfolding get_by_key get_record
  get_by_key-IsValid now o key w r uncached e = found_in (lookup (parse_key key).0 w.databases) e
    where
      found_in :
          (found : Option (Controller S))
          → (get_in storage cache now o (parse_key key).0 (parse_key key).1 false found w).0 ≡ ok r
          → check_validity now r.base.meta ≡ true
      found_in none e = absurd (err-≢ e)
      found_in (some c) e =
          let is = get_in_uncached now o (parse_key key).0 (parse_key key).1 c w uncached in
          let found = get storage now (parse_key key).1 c in
          get-IsValid storage now (parse_key key).1 c r
            (from_database-inv now o found w r
              (ap (λ (p : Result Error Entry × World S K). p.0) (sym is) ∙ e)).0

  no_access :
      (o : Options) (m : Option Meta)
      → has_access_permission o m ≡ false
      → (has_all_permissions o ≡ false) × (check_permission o.local o.internal m ≡ false)
  unfolding has_access_permission
  no_access o m e = elim (if_inv (has_all_permissions o) e) [
    | inl (_, is) ↦ absurd (false≢true (sym is))
    | inr h ↦ h
  ]

  -- Without a cache, Put over a valid record that the options of the interface give no access to changes nothing and returns
  -- the permission error, or the read-only error if the storage is read-only.
  pub put_record_denied :
      (now : ℤ) (o : Options) (r : Entry) (w : World S K) (c : Controller S) (m : Option Meta)
      → w.cache ≡ none
      → lookup r.base.db_name w.databases ≡ some c
      → get_meta storage now r.base.db_key c ≡ ok m
      → has_access_permission o m ≡ false
      → put_record storage cache now o r w
        ≡ (err (if is_read_only storage c then read_only else permission_denied), w)
  unfolding put_record get_meta_in
  put_record_denied now o r w c m uncached database found denied =
      let refused = no_access o m denied in
      ap (λ d. put_in storage cache now o r d w) database
      ∙ if_false (has_all_permissions o) _ _ (refused.0)
      ∙ meta_checked (is_read_only storage c)
    where
      meta_checked :
          (b : Bool)
          → write_checked storage cache now (apply now o r) c (
              if b
              then (err read_only, w)
              else meta_cache_first storage cache now o r.base.db_key c
                  (check_cache storage cache (full_key r.base.db_name r.base.db_key) w))
            ≡ (err (if b then read_only else permission_denied), w)
      meta_checked true = refl
      meta_checked false =
          ap
            (λ p.
              write_checked storage cache now (apply now o r) c
                (meta_cache_first storage cache now o r.base.db_key c p))
            (no_cache (full_key r.base.db_name r.base.db_key) w uncached)
          ∙ ap
              (λ x.
                write_checked storage cache now (apply now o r) c
                  (meta_from_database storage cache o x, w))
              found
          ∙ ap (λ x. write_checked storage cache now (apply now o r) c (x, w))
              (if_false (check_permission o.local o.internal m) _ _ (no_access o m denied).1)
