-- ===== src/Database/Interface/Changes.antt =====
-- What an interface without a cache gives behind a write.
use portbase.Prelude.{
  ℕ, ◌≡◌, refl, sym, ◌∙◌, ap, List, [], Bool, true, false, ◌&&◌, Option, none, some, Result, panic,
  err, ok, ◌>>=◌, ok_inv, err-≢, if◌then◌else◌, if_inv, if_false, inl, inr, arith,
}
use portbase.Prelude.Int.{ℤ}
use portbase.Prelude.Dict.{lookup, insert, same, same_self, lookup-insert}
use portbase.Record.Key.{parse_key, update_meta, set_updated}
use portbase.Record.Meta.{Meta, check_validity, is_pos}
use portbase.Database.{Entry, Storage, Error, not_found}
use portbase.Database.Controller.{Controller, get, is_read_only, valid_entry, put}
use portbase.Database.Controller.Refinement.{IsMap, put-get}
use portbase.Database.Interface.{
  Options, Cache, World, has_access_permission, cache_first, get_in, get_record, get_by_key,
  permitted, put_record, put_in, full_key, apply, change_meta, on_meta, save, change_record,
  delete_record,
}
use portbase.Database.Interface.Access.{no_cache, fst-if, get_in_uncached}
use portbase.Database.Interface.Writes.{
  snd-if, from_database-permitted, from_database-world, stored_inv, put_in_inv, write_inv,
}

module _ {S K : Type 0} (storage : Storage S) (cache : Cache K) where
  -- A read behind a write of `name`, for a storage that is a map.
  module _ (laws : IsMap storage) (now later : ℤ) (o : Options) (w : World S K)
      (uncached : w.cache ≡ none) where
    read_from :
        (name key : List ℕ) (c : Controller S) (v : World S K)
        → v.cache ≡ none
        → lookup name v.databases ≡ some c
        → (get_record storage cache later o name key false v).0
          ≡ (get storage later key c >>= permitted storage cache o)
    unfolding get_record
    read_from name key c v no_store found =
        ap (λ d. (get_in storage cache later o name key false d v).0) found
        ∙ ap (λ (p : Result Error Entry × World S K). p.0)
            (get_in_uncached storage cache later o name key c v no_store)
        ∙ from_database-permitted storage cache later o (get storage later key c) v

    if-permitted :
        (b : Bool) (x y : Result Error Entry)
        → ((if b then x else y) >>= permitted storage cache o)
          ≡ (if b then x >>= permitted storage cache o else (y >>= permitted storage cache o))
    if-permitted true x y = refl
    if-permitted false x y = refl

    read_written :
        (name key : List ℕ) (r : Entry) (c c' : Controller S)
        → lookup name w.databases ≡ some c
        → c.hooks ≡ []
        → put storage r c ≡ ok c'
        → (get_record storage cache later o name key false
            (record w { databases = insert name c' w.databases })).0
          ≡ (if same r.base.db_key key
              then valid_entry later r >>= permitted storage cache o
              else (get_record storage cache later o name key false w).0)
    read_written name key r c c' found hooks e =
        read_from name key c' (record w { databases = insert name c' w.databases }) uncached
          (lookup-insert name name c' w.databases
            ∙ ap (λ b. if b then some c' else lookup name w.databases) (same_self name))
        ∙ ap (λ x. x >>= permitted storage cache o) (put-get storage laws later r c c' key hooks e)
        ∙ if-permitted (same r.base.db_key key) (valid_entry later r) (get storage later key c)
        ∙ ap
            (λ x.
              if same r.base.db_key key
              then valid_entry later r >>= permitted storage cache o
              else x)
            (sym (read_from name key c w uncached found))

  -- Without a cache and hooks, over a storage that is a map, behind a Put that succeeds any interface is given the
  -- record, with the options of the writer applied, under its key, if the record is valid by then and the reader's
  -- options give access to it; under every other key of the database it is given what it was given before.
  pub put_record-get_record :
      (now later : ℤ) (writer reader : Options) (r : Entry) (c : Controller S) (w : World S K)
      (key : List ℕ)
      → IsMap storage
      → w.cache ≡ none
      → lookup r.base.db_name w.databases ≡ some c
      → c.hooks ≡ []
      → (put_record storage cache now writer r w).0 ≡ ok tt
      → (get_record storage cache later reader r.base.db_name key false
          (put_record storage cache now writer r w).1).0
        ≡ (if same r.base.db_key key
            then valid_entry later (apply now writer r) >>= permitted storage cache reader
            else (get_record storage cache later reader r.base.db_name key false w).0)
  unfolding put_record apply change_meta update_meta
  put_record-get_record now later writer reader r c w key laws uncached database hooks e =
      let found = ap (λ d. put_in storage cache now writer r d w) database in
      let e' = ap (λ (p : Result Error (Unit {0}) × World S K). p.0) (sym found) ∙ e in
      let written = found ∙ put_in_inv storage cache now writer r c w uncached e' in
      let done =
        write_inv storage cache now (apply now writer r) c w uncached
          (ap (λ (p : Result Error (Unit {0}) × World S K). p.0) (sym written) ∙ e) in
      ap
        (λ (p : Result Error (Unit {0}) × World S K).
          (get_record storage cache later reader r.base.db_name key false p.1).0)
        written
      ∙ ap (λ v. (get_record storage cache later reader r.base.db_name key false v).0) (done.2)
      ∙ read_written laws now later reader w uncached r.base.db_name key (apply now writer r) c
          (done.0) database hooks (done.1)

  get_in-world :
      (now : ℤ) (o : Options) (name key : List ℕ) (must : Bool) (found : Option (Controller S))
      (w : World S K)
      → w.cache ≡ none
      → (get_in storage cache now o name key must found w).1 ≡ w
  get_in-world now o name key must none w e = refl
  get_in-world now o name key must (some c) w e = snd-if (must && is_read_only storage c) _ _ refl (
      ap (λ p. (cache_first storage cache now o key c p).1)
        (no_cache storage cache (full_key name key) w e)
      ∙ from_database-world storage cache now o (get storage now key c) w e)

  -- A record that is got for a write is the one that the database gives.
  got_for_write :
      (now : ℤ) (o : Options) (name key : List ℕ) (c : Controller S) (w : World S K) (r r' : Entry)
      → w.cache ≡ none
      → get storage now key c ≡ ok r
      → (get_in storage cache now o name key true (some c) w).0 ≡ ok r'
      → r ≡ r'
  got_for_write now o name key c w r r' uncached has e =
      elim (if_inv (is_read_only storage c) (sym (fst-if (is_read_only storage c) _ _) ∙ e)) [
        | inl (_, refused) ↦ absurd (err-≢ refused)
        | inr (_, read) ↦ same_one (
            sym (ap (λ x. x >>= permitted storage cache o) has)
            ∙ sym (from_database-permitted storage cache now o (get storage now key c) w)
            ∙ sym (
                ap (λ p. (cache_first storage cache now o key c p).0)
                  (no_cache storage cache (full_key name key) w uncached))
            ∙ read)
      ]
    where
      same_one : permitted storage cache o r ≡ ok r' → r ≡ r'
      same_one e = elim (if_inv (has_access_permission o r.base.meta) e) [
        | inl (_, is) ↦ ok_inv is
        | inr (_, refused) ↦ absurd (err-≢ refused)
      ]

  save_inv :
      (f : Entry → Entry) (name : List ℕ) (c : Controller S)
      (found : Result Error Entry × World S K)
      → (save storage cache f name (some c) found).0 ≡ ok tt
      → (r : Entry) × (c' : Controller S) × (found.0 ≡ ok r)
        × (put storage (f r) c ≡ ok c')
        × ((save storage cache f name (some c) found).1
            ≡ record (found.1) { databases = insert name c' (found.1).databases })
  save_inv f name c (panic, w) e = ground arith
  save_inv f name c (err reason, w) e = absurd (err-≢ e)
  save_inv f name c (ok r, w) e =
      let done = stored_inv storage cache name (put storage (f r) c) w e in
      (r, done.0, refl, done.1, done.2)

  deleted_meta :
      (now later : ℤ) (f : Meta → Meta) (m : Option Meta)
      → is_pos now ≡ true
      → check_validity later
          (on_meta (portbase.Record.Meta.delete now) (on_meta f (set_updated now m)))
        ≡ false
  unfolding check_validity portbase.Record.Meta.delete set_updated
  deleted_meta now later f none e = rw e refl
  deleted_meta now later f (some m) e = rw e refl

  deleted_invalid :
      (now later : ℤ) (o : Options) (r : Entry)
      → is_pos now ≡ true
      → valid_entry later (change_meta (portbase.Record.Meta.delete now) (apply now o r))
        ≡ err not_found
  unfolding change_meta apply update_meta
  deleted_invalid now later o r e = if_false _ _ _ (deleted_meta now later _ r.base.meta e)

  -- Without a cache and hooks, over a storage that is a map, behind a Delete that succeeds at a time after
  -- 1970, of a record that the database gives and that has the key it was asked for, no interface finds a
  -- record under the key, at whatever time, with immediate deletes and with shadow deletes.
  pub delete_record-get_by_key :
      (now later : ℤ) (writer reader : Options) (key : List ℕ) (c : Controller S) (r : Entry)
      (w : World S K)
      → IsMap storage
      → w.cache ≡ none
      → lookup (parse_key key).0 w.databases ≡ some c
      → c.hooks ≡ []
      → get storage now (parse_key key).1 c ≡ ok r
      → r.base.db_key ≡ (parse_key key).1
      → is_pos now ≡ true
      → (delete_record storage cache now writer key w).0 ≡ ok tt
      → (get_by_key storage cache later reader key
          (delete_record storage cache now writer key w).1).0
        ≡ err not_found
  unfolding change_record get_by_key get_record apply change_meta update_meta
  delete_record-get_by_key now later writer reader key c r w laws uncached database hooks has
        own_key pos_now e =
      let name = (parse_key key).0 in
      let db_key = (parse_key key).1 in
      let f : Entry → Entry =
        λ x. change_meta (portbase.Record.Meta.delete now) (apply now writer x) in
      let found =
        ap (λ d. save storage cache f name d (get_in storage cache now writer name db_key true d w))
          database in
      let saved =
        save_inv f name c (get_in storage cache now writer name db_key true (some c) w)
          (ap (λ (p : Result Error (Unit {0}) × World S K). p.0) (sym found) ∙ e) in
      let is = got_for_write now writer name db_key c w r (saved.0) uncached has (saved.2) in
      let same_key =
        ap (λ (x : Entry). same x.base.db_key db_key) (sym is)
        ∙ ap (λ k. same k db_key) own_key
        ∙ same_self db_key in
      ap
        (λ (p : Result Error (Unit {0}) × World S K).
          (get_record storage cache later reader name db_key false p.1).0)
        found
      ∙ ap (λ v. (get_record storage cache later reader name db_key false v).0)
          (saved.4
            ∙ ap (λ (v : World S K). record v { databases = insert name (saved.1) v.databases })
                (get_in-world now writer name db_key true (some c) w uncached))
      ∙ read_written laws now later reader w uncached name db_key (f (saved.0)) c (saved.1) database
          hooks (saved.3)
      ∙ ap
          (λ b.
            if b
            then valid_entry later (f (saved.0)) >>= permitted storage cache reader
            else (get_record storage cache later reader name db_key false w).0)
          same_key
      ∙ ap (λ x. x >>= permitted storage cache reader)
          (deleted_invalid now later writer (saved.0) pos_now)
