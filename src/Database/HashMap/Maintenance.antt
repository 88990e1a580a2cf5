-- ===== src/Database/HashMap/Maintenance.antt =====
-- What the maintenance of record states does to the records of the hash map.
use portbase.Prelude.{
  ℕ, ◌≡◌, refl, sym, ◌∙◌, ap, List, [], ◌∷◌, Bool, true, false, Option, none, some, Result, err,
  ◌>>=◌, if◌then◌else◌, Bool-cases, inl, inr, arith,
}
use portbase.Prelude.Int.{ℤ, ◌≤ℤ◌}
use portbase.Prelude.Dict.{Dict, lookup, same, same_iff, HasDistinctKeys}
use portbase.Record.Meta.{Meta, check_validity}
use portbase.Database.{Entry, not_found, Error, from_storage}
use portbase.Database.Controller.{Controller, valid_entry, get}
use portbase.Database.Controller.Refinement.{get-answer, get_shut_down}
use portbase.Database.HashMap.Laws.{hashmap-IsMap}
use portbase.Database.HashMap.{
  hashmap, is_expired, is_purged, maintain, maintain_with, with_deleted, maintain_record_states,
  keep_if, or_not_found,
}

abbrev pub bind {ℓ κ} : {A : Type ℓ} {B : Type κ} → Option A → (A → Option B) → Option B
bind none f = none
bind (some a) f = f a

pub lookup-keep_if :
    {A : Type 0} (f : A → Option A) (key j : List ℕ) (r : A) (o : Option A) (db done : Dict A)
    → (same j key ≡ true → f r ≡ o)
    → lookup j db ≡ none
    → lookup key done ≡ bind (lookup key db) f
    → lookup key (keep_if j o done) ≡ bind (if same j key then some r else lookup key db) f
lookup-keep_if f key j r none db done e fresh rest = elim (Bool-cases (same j key)) [
  | inl is ↦ rw (is, e is) (rest ∙ ap (λ o. bind o f) (rw ((same_iff j key).0 is) at fresh))
  | inr is ↦ rw is rest
]
lookup-keep_if f key j r (some r') db done e fresh rest = elim (Bool-cases (same j key)) [
  | inl is ↦ rw (is, e is) refl
  | inr is ↦ rw is rest
]

-- One visit per key: a record is looked up as what its maintenance leaves.
lookup-maintain_record_states :
    (now threshold : ℤ) (shadow_delete : Bool) (key : List ℕ) (db : Dict Entry)
    → HasDistinctKeys db
    → lookup key (maintain_record_states now threshold shadow_delete db)
      ≡ bind (lookup key db) (maintain now threshold shadow_delete)
lookup-maintain_record_states now threshold shadow_delete key [] h = refl
lookup-maintain_record_states now threshold shadow_delete key ((j, r) ∷ db) (fresh, h) =
    lookup-keep_if (maintain now threshold shadow_delete) key j r _ db _ (λ is. refl) fresh
      (lookup-maintain_record_states now threshold shadow_delete key db h)

-- Time passes: what has expired stays so.
expired_later :
    (now later : ℤ) (m : Meta)
    → now ≤ℤ later
    → is_expired now m ≡ true
    → (check_validity later (some m) ≡ false)
      × (check_validity later (some (record m { deleted = m.expires })) ≡ false)
unfolding is_expired check_validity
expired_later now later m le e = (ground arith, ground arith)

purged_invalid :
    (threshold later : ℤ) (shadow_delete : Bool) (m : Meta)
    → is_purged shadow_delete threshold m ≡ true
    → check_validity later (some m) ≡ false
unfolding check_validity
purged_invalid threshold later shadow_delete m e = ground arith

not_seen :
    (later : ℤ) (r : Entry)
    → check_validity later r.base.meta ≡ false
    → valid_entry later r ≡ err not_found
not_seen later r e = rw e refl

-- What Get makes of a stored record.
abbrev seen : ℤ → Option Entry → Result Error Entry
seen later o = from_storage (or_not_found o) >>= (λ r. valid_entry later r)

maintain-seen :
    (now threshold later : ℤ) (shadow_delete : Bool) (r : Entry)
    → now ≤ℤ later
    → seen later (maintain now threshold shadow_delete r) ≡ valid_entry later r
unfolding maintain
maintain-seen now threshold later shadow_delete r le = with_meta r.base.meta refl
  where
    with_meta :
        (m : Option Meta)
        → r.base.meta ≡ m
        → seen later (maintain_with now threshold shadow_delete r m) ≡ valid_entry later r
    with_meta none e = refl
    with_meta (some m) e = elim (Bool-cases (is_expired now m)) [
      | inl expired ↦ rw expired (gone (expired_later now later m le expired) shadow_delete)
      | inr fresh ↦ elim (Bool-cases (is_purged shadow_delete threshold m)) [
        | inl purged ↦
            rw (fresh, purged)
              (sym (
                not_seen later r (
                  ap (check_validity later) e
                  ∙ purged_invalid threshold later shadow_delete m purged)))
        | inr kept ↦ rw (fresh, kept) refl
      ]
    ]
      where
        gone :
            (check_validity later (some m) ≡ false)
              × (check_validity later (some (record m { deleted = m.expires })) ≡ false)
            → (b : Bool)
            → seen later (if b then some (with_deleted m.expires r m) else none)
              ≡ valid_entry later r
        gone (before, after) true =
            not_seen later (with_deleted m.expires r m) after
            ∙ sym (not_seen later r (ap (check_validity later) e ∙ before))
        gone (before, after) false = sym (not_seen later r (ap (check_validity later) e ∙ before))

bind-seen :
    (now threshold later : ℤ) (shadow_delete : Bool) (o : Option Entry)
    → now ≤ℤ later
    → seen later (bind o (maintain now threshold shadow_delete)) ≡ seen later o
bind-seen now threshold later shadow_delete none le = refl
bind-seen now threshold later shadow_delete (some r) le =
    maintain-seen now threshold later shadow_delete r le

-- MaintainRecordStates of the hash map, with any threshold and with shadow deletes or without, changes
-- nothing that Get of a controller without hooks gives from that time on; the keys of the map are distinct.
pub get-maintain_record_states :
    (now threshold later : ℤ) (shadow_delete : Bool) (key : List ℕ) (c : Controller (Dict Entry))
    → c.hooks ≡ []
    → HasDistinctKeys c.store
    → now ≤ℤ later
    → get hashmap later key
        (record c { store = maintain_record_states now threshold shadow_delete c.store })
      ≡ get hashmap later key c
unfolding portbase.Database.HashMap.get
get-maintain_record_states now threshold later shadow_delete key c hooks distinct le =
    let c' = record c { store = maintain_record_states now threshold shadow_delete c.store } in
    elim (Bool-cases c.is_shutting_down) [
      | inl down ↦
          get_shut_down hashmap hashmap-IsMap later key c' down
          ∙ sym (get_shut_down hashmap hashmap-IsMap later key c down)
      | inr running ↦
          get-answer hashmap hashmap-IsMap later key c' hooks running
          ∙ ap (seen later)
              (lookup-maintain_record_states now threshold shadow_delete key c.store distinct)
          ∙ bind-seen now threshold later shadow_delete (lookup key c.store) le
          ∙ sym (get-answer hashmap hashmap-IsMap later key c hooks running)
    ]
