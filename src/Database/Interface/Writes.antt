-- ===== src/Database/Interface/Writes.antt =====
-- database/interface.go: what a write does, and a read, where the interface has no cache.
use portbase.Prelude.{
  ℕ, ◌≡◌, refl, ◌∙◌, ap, List, Bool, true, false, Option, none, some, Result, panic, err, ok, ◌>>=◌,
  err-≢, if◌then◌else◌, arith,
}
use mathlib.Core.Path.{subst}
use portbase.Prelude.Int.{ℤ}
use portbase.Prelude.Dict.{insert}
use portbase.Record.Meta.{Meta}
use portbase.Database.{
  Entry, Storage, Error, not_found, permission_denied, read_only, shutting_down, storage_error,
  hook_refused, unknown_database,
}
use portbase.Database.Controller.{Controller, is_read_only, put}
use portbase.Database.Interface.{
  Options, Cache, World, has_access_permission, has_all_permissions, check_cache, from_database,
  permitted, put_in, write, write_checked, meta_cache_first, get_meta_in, full_key, apply,
  update_cache, stored, is_removed, ttl_of,
}
use portbase.Database.Interface.Access.{no_cache, fst-if}

pub snd-if {ℓ κ} :
    {A : Type ℓ} {B : Type κ} (b : Bool) (x y : A × B) {z : B}
    → x.1 ≡ z
    → y.1 ≡ z
    → (if b then x else y).1 ≡ z
snd-if true x y hx hy = hx
snd-if false x y hx hy = hy

module _ {S K : Type 0} (storage : Storage S) (cache : Cache K) where
  pub update_uncached :
      (r : Entry) (remove : Bool) (ttl : ℤ) (w : World S K)
      → w.cache ≡ none
      → update_cache storage cache r remove ttl w ≡ w
  unfolding update_cache
  update_uncached r remove ttl w e = rw e refl

  pub from_database-permitted :
      (now : ℤ) (o : Options) (found : Result Error Entry) (w : World S K)
      → (from_database storage cache now o found w).0 ≡ (found >>= permitted storage cache o)
  from_database-permitted now o panic w = refl
  from_database-permitted now o (err reason) w = refl
  from_database-permitted now o (ok r) w = fst-if (has_access_permission o r.base.meta) _ _

  pub from_database-world :
      (now : ℤ) (o : Options) (found : Result Error Entry) (w : World S K)
      → w.cache ≡ none
      → (from_database storage cache now o found w).1 ≡ w
  from_database-world now o panic w e = refl
  from_database-world now o (err reason) w e = refl
  from_database-world now o (ok r) w e =
      snd-if (has_access_permission o r.base.meta) _ _
        (update_uncached r false (ttl_of now r.base.meta) w e) refl

  get_meta_in-world :
      (now : ℤ) (o : Options) (name key : List ℕ) (c : Controller S) (w : World S K)
      → w.cache ≡ none
      → (get_meta_in storage cache now o name key c w).1 ≡ w
  unfolding get_meta_in
  get_meta_in-world now o name key c w e = read (is_read_only storage c)
    where
      read :
          (b : Bool)
          → (if b
              then (err read_only, w)
              else meta_cache_first storage cache now o key c
                  (check_cache storage cache (full_key name key) w)).1
            ≡ w
      read true = refl
      read false =
          ap (λ p. (meta_cache_first storage cache now o key c p).1)
            (no_cache storage cache (full_key name key) w e)

  pub stored_inv :
      (name : List ℕ) (p : Result Error (Controller S)) (w : World S K)
      → (stored storage cache name p w).0 ≡ ok tt
      → (c' : Controller S) × (p ≡ ok c')
        × ((stored storage cache name p w).1 ≡ record w { databases = insert name c' w.databases })
  stored_inv name panic w e = ground arith
  stored_inv name (err reason) w e = absurd (err-≢ e)
  stored_inv name (ok c') w e = (c', refl, refl)

  write_checked_inv :
      (now : ℤ) (r : Entry) (c : Controller S)
      (meta_checked : Result Error (Option Meta) × World S K)
      → (write_checked storage cache now r c meta_checked).0 ≡ ok tt
      → write_checked storage cache now r c meta_checked
        ≡ write storage cache now r c (meta_checked.1)
  write_checked_inv now r c (panic, w) e = ground arith
  write_checked_inv now r c (ok m, w) e = refl
  write_checked_inv now r c (err not_found, w) e = refl
  write_checked_inv now r c (err permission_denied, w) e = absurd (err-≢ e)
  write_checked_inv now r c (err read_only, w) e = absurd (err-≢ e)
  write_checked_inv now r c (err shutting_down, w) e = absurd (err-≢ e)
  write_checked_inv now r c (err storage_error, w) e = absurd (err-≢ e)
  write_checked_inv now r c (err hook_refused, w) e = absurd (err-≢ e)
  write_checked_inv now r c (err unknown_database, w) e = absurd (err-≢ e)

  pub put_in_inv :
      (now : ℤ) (o : Options) (r : Entry) (c : Controller S) (w : World S K)
      → w.cache ≡ none
      → (put_in storage cache now o r (some c) w).0 ≡ ok tt
      → put_in storage cache now o r (some c) w ≡ write storage cache now (apply now o r) c w
  put_in_inv now o r c w uncached = permission (has_all_permissions o)
    where
      meta_checked : Result Error (Option Meta) × World S K
      meta_checked = get_meta_in storage cache now o r.base.db_name r.base.db_key c w

      permission :
          (b : Bool)
          → (if b
              then write storage cache now (apply now o r) c w
              else write_checked storage cache now (apply now o r) c meta_checked).0
            ≡ ok tt
          → (if b
              then write storage cache now (apply now o r) c w
              else write_checked storage cache now (apply now o r) c meta_checked)
            ≡ write storage cache now (apply now o r) c w
      permission true e = refl
      permission false e =
          write_checked_inv now (apply now o r) c meta_checked e
          ∙ ap (write storage cache now (apply now o r) c)
              (get_meta_in-world now o r.base.db_name r.base.db_key c w uncached)

  pub write_inv :
      (now : ℤ) (r : Entry) (c : Controller S) (w : World S K)
      → w.cache ≡ none
      → (write storage cache now r c w).0 ≡ ok tt
      → (c' : Controller S) × (put storage r c ≡ ok c')
        × ((write storage cache now r c w).1
            ≡ record w { databases = insert r.base.db_name c' w.databases })
  write_inv now r c w uncached = read (is_read_only storage c)
    where
      next : World S K
      next = update_cache storage cache r (is_removed r.base.meta) (ttl_of now r.base.meta) w

      read :
          (b : Bool)
          → (if b
              then (err read_only, w)
              else stored storage cache r.base.db_name (put storage r c) next).0
            ≡ ok tt
          → (c' : Controller S) × (put storage r c ≡ ok c')
            × ((if b
                  then (err read_only, w)
                  else stored storage cache r.base.db_name (put storage r c) next).1
                ≡ record w { databases = insert r.base.db_name c' w.databases })
      read true e = absurd (err-≢ e)
      read false e =
          subst
            (λ v.
              (c' : Controller S) × (put storage r c ≡ ok c')
              × ((stored storage cache r.base.db_name (put storage r c) next).1
                  ≡ record v { databases = insert r.base.db_name c' v.databases }))
            (update_uncached r (is_removed r.base.meta) (ttl_of now r.base.meta) w uncached)
            (stored_inv r.base.db_name (put storage r c) next e)
