-- ===== src/Database/Interface/Applied.antt =====
-- database/interface.go: the options of an interface, applied to a record and checked against one.
use portbase.Prelude.{Bool, true, ◌&&◌, Option, none, some, if◌then◌else◌}
use portbase.Prelude.Int.{ℤ}
use portbase.Record.Key.{update_meta}
use portbase.Record.Meta.{
  Meta, is_pos, make_secret, make_crown_jewel, set_absolute_expiry, set_relativate_expiry,
  check_permission,
}
use portbase.Database.{Entry}

pub record Options : Type 0 where
  pub local : Bool
  pub internal : Bool
  pub always_make_secret : Bool
  pub always_make_crownjewel : Bool
  pub always_set_relativate_expiry : ℤ
  pub always_set_absolute_expiry : ℤ

abbrev pub with_expiry : Options → Meta → Meta
with_expiry o m =
    if is_pos o.always_set_absolute_expiry
    then set_absolute_expiry o.always_set_absolute_expiry m
    else if is_pos o.always_set_relativate_expiry
    then set_relativate_expiry o.always_set_relativate_expiry m
    else m

abbrev pub with_secret : Options → Meta → Meta
with_secret o m = if o.always_make_secret then make_secret m else m

abbrev pub with_crownjewel : Options → Meta → Meta
with_crownjewel o m = if o.always_make_crownjewel then make_crown_jewel m else m

abbrev pub on_meta : (Meta → Meta) → Option Meta → Option Meta
on_meta f none = none
on_meta f (some m) = some (f m)

unfoldable pub change_meta : (Meta → Meta) → Entry → Entry
change_meta f r = record r { base = record r.base { meta = on_meta f r.base.meta } }

-- Apply; UpdateMeta sets metadata where there is none.
unfoldable pub apply : ℤ → Options → Entry → Entry
apply now o r =
    change_meta (λ m. with_expiry o (with_crownjewel o (with_secret o m)))
      (record r { base = update_meta now r.base })

unfoldable pub has_all_permissions : Options → Bool
has_all_permissions o = o.local && o.internal

unfoldable pub has_access_permission : Options → Option Meta → Bool
has_access_permission o m =
    if has_all_permissions o then true else check_permission o.local o.internal m
