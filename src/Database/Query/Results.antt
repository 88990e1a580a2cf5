-- ===== src/Database/Query/Results.antt =====
-- The results of a query of the hash map, against Get.
use portbase.Prelude.{
  ℕ, ◌≡◌, ◌↔◌, refl, sym, ◌∙◌, ap, List, [], ◌∷◌, Bool, true, false, ◌&&◌, Option, none, some, ok,
  ◌>>=◌, ok_inv, err-≢, if◌then◌else◌, if_inv, inl, inr, ◌⊎◌, Bool-cases,
}
use Prim.Native.String.{String}
use mathlib.Core.Bool.{false≢true}
use mathlib.Core.Option.{some-injective, none-ne-some}
use mathlib.Core.Path.{subst}
use portbase.Prelude.Int.{ℤ}
use portbase.Prelude.Dict.{Dict, lookup, same, same_iff, HasDistinctKeys}
use portbase.Record.Meta.{check_validity, check_permission}
use portbase.Database.{Entry, Error, from_storage}
use portbase.Database.Controller.{Controller, get, valid_entry}
use portbase.Database.Controller.Refinement.{get-answer}
use portbase.Database.HashMap.{hashmap, or_not_found, keep_if}
use portbase.Database.HashMap
use portbase.Database.HashMap.Laws.{hashmap-IsMap}
use portbase.Database.HashMap.Maintenance.{bind, lookup-keep_if}
use portbase.Database.Query.{
  Query, Accessor, Floats, matches_key, matches_record, selects, query_executor, Answer, taken,
  is_done, timed_out, query_timeout, send,
}

and_inv : (a b : Bool) → (a && b) ≡ true → (a ≡ true) × (b ≡ true)
and_inv true b e = (refl, e)
and_inv false b e = absurd (false≢true e)

module _ {F : Type 0} (floats : Floats F) (accessor : Entry → Option (Accessor F)) (now : ℤ)
    (q : Query F) (local internal : Bool) where
  selected : List ℕ → Entry → Option Entry
  selected key r = if selects floats accessor now q local internal key r then some r else none

  -- All records that pass the tests, whatever the receiver does.
  selection : Dict Entry → Dict Entry
  selection [] = []
  selection ((key, r) ∷ db) = keep_if key (selected key r) (selection db)

  lookup-selection :
      (key : List ℕ) (db : Dict Entry)
      → HasDistinctKeys db
      → lookup key (selection db) ≡ bind (lookup key db) (selected key)
  unfolding selected selection
  lookup-selection key [] h = refl
  lookup-selection key ((j, r) ∷ db) (fresh, h) =
      lookup-keep_if (selected key) key j r _ db _
        (λ is. ap (λ k. selected k r) (sym ((same_iff j key).0 is))) fresh
        (lookup-selection key db h)

  -- The four tests on a record.
  abbrev IsSelected : List ℕ → Entry → Type 0
  IsSelected key r =
      (check_permission local internal r.base.meta ≡ true)
      × (matches_key q key ≡ true)
      × (matches_record floats accessor q r ≡ true)

  selects_inv :
      (key : List ℕ) (r : Entry)
      → selects floats accessor now q local internal key r ≡ true
      → (check_validity now r.base.meta ≡ true) × IsSelected key r
  unfolding selects
  selects_inv key r e =
      let (rest, permission) = and_inv _ (check_permission local internal r.base.meta) e in
      let (matching, valid) = and_inv _ (check_validity now r.base.meta) rest in
      let (by_key, by_record) = and_inv _ (matches_record floats accessor q r) matching in
      (valid, (permission, by_key, by_record))

  IsSelected-selects :
      (key : List ℕ) (r : Entry)
      → check_validity now r.base.meta ≡ true
      → IsSelected key r
      → selects floats accessor now q local internal key r ≡ true
  unfolding selects
  IsSelected-selects key r valid (permission, by_key, by_record) =
      rw (by_key, by_record, valid, permission) refl

  found_iff :
      (key : List ℕ) (o : Option Entry) (r : Entry)
      → (bind o (selected key) ≡ some r) ↔ (
          ((from_storage (or_not_found o) >>= (λ r'. valid_entry now r')) ≡ ok r)
          × IsSelected key r)
  unfolding selected
  found_iff key none r = (λ e. absurd (none-ne-some r e), λ h. absurd (err-≢ (h.0)))
  found_iff key (some r') r = (
    λ e. elim (if_inv (selects floats accessor now q local internal key r') e) [
      | inl (chosen, is) ↦
          subst (λ x. (valid_entry now r' ≡ ok x) × IsSelected key x) (some-injective _ _ is)
            (rw ((selects_inv key r' chosen).0) refl, (selects_inv key r' chosen).1)
      | inr (_, nothing) ↦ absurd (none-ne-some r nothing)
    ],
    λ h. elim (if_inv (check_validity now r'.base.meta) (h.0)) [
      | inl (valid, is) ↦
          subst (λ x. selected key r' ≡ some x) (ok_inv is)
            (rw (IsSelected-selects key r' valid (subst (IsSelected key) (sym (ok_inv is)) (h.1)))
              refl)
      | inr (_, refused) ↦ absurd (err-≢ refused)
    ],
  )

  -- The receiver did not take some record that passes the tests: the iterator was done, and there is no error, or
  -- a second passed, and there is the error of the timeout.
  abbrev pub IsBrokenOff : (List ℕ → Answer) → Option String → Dict Entry → Type 0
  IsBrokenOff answer error [] = ⊥
  IsBrokenOff answer error ((key, r) ∷ db) =
      ((selects floats accessor now q local internal key r ≡ true)
        × (((answer key ≡ is_done) × (error ≡ none))
            ⊎ ((answer key ≡ timed_out) × (error ≡ some query_timeout))))
      ⊎ IsBrokenOff answer error db

  module _ (answer : List ℕ → Answer) where
    run : Dict Entry → Dict Entry × Option String
    run db = query_executor floats accessor answer now q local internal db

    -- What is sent is a first part of the selection.
    lookup-run :
        (key : List ℕ) (r : Entry) (db : Dict Entry)
        → lookup key (run db).0 ≡ some r
        → lookup key (selection db) ≡ some r
    unfolding run selection selected
    lookup-run key r [] e = e
    lookup-run key r ((j, x) ∷ db) e =
        elim (Bool-cases (selects floats accessor now q local internal j x)) [
          | inr other ↦ rw other (lookup-run key r db (rw other at e))
          | inl chosen ↦ rw chosen (at_send (lookup-run key r db) (answer j) (rw chosen at e))
        ]
      where
        at_send :
            (lookup key (run db).0 ≡ some r → lookup key (selection db) ≡ some r)
            → (a : Answer) → lookup key (send a j x (run db)).0 ≡ some r
            → lookup key ((j, x) ∷ selection db) ≡ some r
        at_send later taken e = elim (Bool-cases (same j key)) [
          | inl is ↦ rw is (rw is at e)
          | inr other ↦ rw other (later (rw other at e))
        ]
        at_send later is_done e = absurd (none-ne-some r e)
        at_send later timed_out e = absurd (none-ne-some r e)

    abbrev IsComplete : Dict Entry → Dict Entry × Option String → Dict Entry → Type 0
    IsComplete db result all =
        ((result.0 ≡ all) × (result.1 ≡ none)) ⊎ IsBrokenOff answer (result.1) db

    send-IsComplete :
        (j : List ℕ) (x : Entry) (db : Dict Entry) (a : Answer)
        → selects floats accessor now q local internal j x ≡ true
        → answer j ≡ a
        → IsComplete db (run db) (selection db)
        → IsComplete ((j, x) ∷ db) (send a j x (run db)) ((j, x) ∷ selection db)
    send-IsComplete j x db taken chosen e (inl h) = inl (ap (λ l. (j, x) ∷ l) h.0, h.1)
    send-IsComplete j x db taken chosen e (inr broken) = inr (inr broken)
    send-IsComplete j x db is_done chosen e h = inr (inl (chosen, inl (e, refl)))
    send-IsComplete j x db timed_out chosen e h = inr (inl (chosen, inr (e, refl)))

    visit-IsComplete :
        (j : List ℕ) (x : Entry) (db : Dict Entry) (b : Bool)
        → selects floats accessor now q local internal j x ≡ b
        → IsComplete db (run db) (selection db)
        → IsComplete
            ((j, x) ∷ db)
            (if b then send (answer j) j x (run db) else run db)
            (keep_if j (if b then some x else none) (selection db))
    visit-IsComplete j x db true chosen h = send-IsComplete j x db (answer j) chosen refl h
    visit-IsComplete j x db false other (inl h) = inl h
    visit-IsComplete j x db false other (inr broken) = inr (inr broken)

    run-IsComplete : (db : Dict Entry) → IsComplete db (run db) (selection db)
    unfolding run selection selected
    run-IsComplete [] = inl (refl, refl)
    run-IsComplete ((j, x) ∷ db) = visit-IsComplete j x db _ refl (run-IsComplete db)

  -- For a controller over a hash map, whose keys are distinct, that has no hooks and is not shutting down: a
  -- record that the query executor sends is one that Get of its key gives at that time, that the caller
  -- may see, and whose key and content the query matches. And each such record is sent, unless the receiver did not
  -- take some record that passes the tests: then the iterator was done, without an error, or the error is that of the timeout.
  -- The order, the limit and the offset of the query have no effect on this.
  pub query_executor-get :
      (answer : List ℕ → Answer) (key : List ℕ) (r : Entry) (c : Controller (Dict Entry))
      → c.hooks ≡ []
      → c.is_shutting_down ≡ false
      → HasDistinctKeys c.store
      → (lookup key (query_executor floats accessor answer now q local internal c.store).0 ≡ some r
          → (get hashmap now key c ≡ ok r)
            × (check_permission local internal r.base.meta ≡ true)
            × (matches_key q key ≡ true)
            × (matches_record floats accessor q r ≡ true))
        × ((get hashmap now key c ≡ ok r)
              × (check_permission local internal r.base.meta ≡ true)
              × (matches_key q key ≡ true)
              × (matches_record floats accessor q r ≡ true)
            → (lookup key (query_executor floats accessor answer now q local internal c.store).0
                ≡ some r)
              ⊎ IsBrokenOff answer
                  (query_executor floats accessor answer now q local internal c.store).1
                  c.store)
  unfolding portbase.Database.HashMap.get run
  query_executor-get answer key r c hooks running distinct =
      let listed = lookup-selection key c.store distinct in
      let given = get-answer hashmap hashmap-IsMap now key c hooks running in
      let f = found_iff key (lookup key c.store) r in
      (
        λ e.
            let h = f.0 (sym listed ∙ lookup-run answer key r c.store e) in
            (given ∙ h.0, h.1.0, h.1.1, h.1.2),
        λ h. elim (run-IsComplete answer c.store) [
          | inl all ↦
              inl (ap (lookup key) all.0 ∙ (listed ∙ f.1 (sym given ∙ h.0, (h.1, h.2, h.3))))
          | inr broken ↦ inr broken
        ],
      )
