-- ===== src/Record/Key/Laws.antt =====
-- Splitting keys, and putting them together again.
use portbase.Prelude.{
  ℕ, List, [], ◌∷◌, ◌++◌, Bool, true, false, Option, ◌==◌, if◌then◌else◌, ◌≡◌, ◌≢◌, refl, arith,
  Bool-cases, inl, inr,
}
use portbase.Record.Meta.{Meta}
use portbase.Record.Key.{parse_key, Base, key_is_set, set_key, key_of}

-- Whether a string has a colon.
abbrev pub has_colon : List ℕ → Bool
has_colon [] = false
has_colon (c ∷ key) = if c == b':' then true else has_colon key

-- ParseKey splits at the first colon: the name has none, and name, colon and rest are the key; a key
-- without a colon is a name with an empty rest.
pub parse_key_splits :
    (key : List ℕ)
    → (has_colon (parse_key key).0 ≡ false)
      × ((if has_colon key
            then (parse_key key).0 ++ (b':' ∷ (parse_key key).1)
            else (parse_key key).0 ++ (parse_key key).1)
          ≡ key)
unfolding parse_key
parse_key_splits [] = (refl, refl)
parse_key_splits (c ∷ key) = elim (Bool-cases (c == b':')) [
  | inl colon ↦ ground (arith, colon)
  | inr other ↦ ground (arith, other, parse_key_splits key)
]

-- Name and rest put together with a colon are split into the same two, if the name has no colon.
pub parse_key-append :
    (name rest : List ℕ) → has_colon name ≡ false → parse_key (name ++ (b':' ∷ rest)) ≡ (name, rest)
unfolding parse_key
parse_key-append [] rest h = refl
parse_key-append (c ∷ name) rest h = ground (arith, parse_key-append name rest)

-- On a record without a key, Key returns a key with a colon that SetKey was given; behind a name that
-- is not empty it keeps it, whatever SetKey is called with next.
pub set_key-key_of :
    (key other : List ℕ) (b : Base)
    → key_is_set b ≡ false
    → has_colon key ≡ true
    → (parse_key key).0 ≢ []
    → (key_of (set_key key b) ≡ key) × (key_of (set_key other (set_key key b)) ≡ key)
unfolding set_key key_of
set_key-key_of key other b unset colon named =
    let whole = rw colon at (parse_key_splits key).1 in
    rw unset (whole, rw (named_is_set (parse_key key).0 _ _ named) whole)
  where
    named_is_set :
        (name rest : List ℕ) (m : Option Meta)
        → name ≢ []
        → key_is_set (record { db_name = name; db_key = rest; meta = m }) ≡ true
    named_is_set [] rest m h = absurd (h refl)
    named_is_set (c ∷ name) rest m h = unfold key_is_set in refl
