-- ===== src/Record/Key.antt =====
-- database/record/key.go, and the key and metadata of database/record/base.go. A string is the list of
-- its bytes.
pub mod Laws
use portbase.Prelude.{
  ℕ, List, [], ◌∷◌, ◌++◌, Bool, true, false, not, Option, none, some, ◌==◌, if◌then◌else◌,
}
use portbase.Prelude.Int.{ℤ}
use portbase.Record.Meta.{Meta, empty_meta, update}

-- strings.SplitN(key, ":", 2), joined again: the part up to the first colon, and the rest behind it.
-- Without a colon the second part is the empty string.
unfoldable pub parse_key : List ℕ → List ℕ × List ℕ
parse_key [] = ([], [])
parse_key (c ∷ key) =
    let rest = parse_key key in if c == b':' then ([], key) else (c ∷ rest.0, rest.1)

pub record Base : Type 0 where
  pub db_name : List ℕ
  pub db_key : List ℕ
  pub meta : Option Meta

unfoldable pub key_is_set : Base → Bool
key_is_set b = elim b.db_name [ [] ↦ false | _ ∷ _ ↦ true ]

-- A key that is set is kept; the attempt is only logged.
unfoldable pub set_key : List ℕ → Base → Base
set_key key b =
    if not (key_is_set b)
    then record b { db_name = (parse_key key).0; db_key = (parse_key key).1 }
    else b

unfoldable pub reset_key : Base → Base
reset_key b = record b { db_name = []; db_key = [] }

unfoldable pub key_of : Base → List ℕ
key_of b = b.db_name ++ (b':' ∷ b.db_key)

unfoldable pub create_meta : Base → Base
create_meta b = record b { meta = some empty_meta }

unfoldable pub set_updated : ℤ → Option Meta → Option Meta
set_updated now none = some (update now empty_meta)
set_updated now (some m) = some (update now m)

unfoldable pub update_meta : ℤ → Base → Base
update_meta now b = record b { meta = set_updated now b.meta }

unfoldable pub set_meta : Option Meta → Base → Base
set_meta meta b = record b { meta = meta }
