-- ===== src/Database/HashMap/Laws.antt =====
-- The hash map as a storage.
use portbase.Prelude.{
  ◌≡◌, refl, sym, ◌∙◌, ap, Bool, true, false, Option, none, some, ok, ◌>>=◌, ok_inv, if◌then◌else◌,
}
use mathlib.Core.Option.{some-injective}
use portbase.Prelude.Dict.{Dict, lookup, same, lookup-insert, lookup-remove}
use portbase.Database.{Entry}
use portbase.Database.Controller.Refinement.{IsMap}
use portbase.Database.HashMap.{hashmap, get, get_meta, put, delete, or_not_found, meta_of_entry}

or_not_found-if :
    (b : Bool) (o p : Option Entry)
    → or_not_found (if b then o else p) ≡ (if b then or_not_found o else or_not_found p)
or_not_found-if true o p = refl
or_not_found-if false o p = refl

meta_of_entry-get :
    (o : Option Entry) → meta_of_entry o ≡ (or_not_found o >>= (λ r. ok r.base.meta))
meta_of_entry-get none = refl
meta_of_entry-get (some r) = refl

-- A record that was put is got back under its key and as it was put, one that was deleted is not found, other keys keep
-- what they had, and GetMeta gives the metadata of what Get gives.
pub hashmap-IsMap : IsMap hashmap
unfolding get get_meta put delete
hashmap-IsMap = record {
  put-stored = λ r r' s s' e. sym (ap (λ (p : Entry × Dict Entry). p.0) (ok_inv e));
  get-put = λ r r' s s' key e. rw⁻¹ (ap (λ (p : Entry × Dict Entry). p.1) (ok_inv e)) (
      ap or_not_found (lookup-insert r.base.db_key key r s)
      ∙ or_not_found-if (same r.base.db_key key) (some r) (lookup key s));
  get-delete = λ deleted s s' key e. rw⁻¹ (ok_inv e) (
      ap or_not_found (lookup-remove deleted key s)
      ∙ or_not_found-if (same deleted key) none (lookup key s));
  handler-get = λ handler key s e. rw⁻¹ (some-injective _ _ e) (meta_of_entry-get (lookup key s));
}
