-- ===== src/Record/Meta.antt =====
-- database/record/meta.go. Times are int64 seconds; `now` is what time.Now().Unix() returns.
pub mod Expiry
use portbase.Prelude.{ℕ, Bool, true, false, not, ◌&&◌, Option, none, some, ◌==◌, if◌then◌else◌}
use portbase.Prelude.Int.{ℤ, pos, negsuc, pos_part, neg_part, ltb_ℤ, sub64}

-- A negative `deleted` holds a relative expiry: the seconds to live.
pub record Meta : Type 0 where
  pub created : ℤ
  pub modified : ℤ
  pub expires : ℤ
  pub deleted : ℤ
  pub secret : Bool
  pub cronjewel : Bool

abbrev pub is_zero : ℤ → Bool
is_zero (pos n) = n == 0
is_zero (negsuc _) = false

abbrev pub is_pos : ℤ → Bool
is_pos z = ltb_ℤ (pos 0) z

abbrev pub is_neg : ℤ → Bool
is_neg (pos _) = false
is_neg (negsuc _) = true

unfoldable pub empty_meta : Meta
empty_meta = record {
  created = pos 0;
  modified = pos 0;
  expires = pos 0;
  deleted = pos 0;
  secret = false;
  cronjewel = false;
}

unfoldable pub set_absolute_expiry : ℤ → Meta → Meta
set_absolute_expiry seconds m = record m { expires = seconds; deleted = pos 0 }

unfoldable pub set_relativate_expiry : ℤ → Meta → Meta
set_relativate_expiry seconds m =
    if is_neg seconds then m else record m { deleted = sub64 (pos 0) seconds }

unfoldable pub get_absolute_expiry : Meta → ℤ
get_absolute_expiry m = m.expires

unfoldable pub get_relative_expiry : ℤ → Meta → ℤ
get_relative_expiry now m =
    if is_zero m.expires
    then negsuc 0
    else (let abs = sub64 m.expires now in if is_neg abs then pos 0 else abs)

unfoldable pub make_crown_jewel : Meta → Meta
make_crown_jewel m = record m { cronjewel = true }

unfoldable pub make_secret : Meta → Meta
make_secret m = record m { secret = true }

unfoldable pub update : ℤ → Meta → Meta
update now m = record m {
  modified = now;
  created = if is_zero m.created then now else m.created;
  expires = if is_neg m.deleted then sub64 now m.deleted else m.expires;
}

unfoldable pub reset : Meta → Meta
reset m = record m { created = pos 0; modified = pos 0; expires = pos 0; deleted = pos 0 }

unfoldable pub delete : ℤ → Meta → Meta
delete now m = record m { deleted = now }

unfoldable pub is_deleted : Meta → Bool
is_deleted m = is_pos m.deleted

-- `none` is the nil pointer.
unfoldable pub check_validity : ℤ → Option Meta → Bool
check_validity now none = false
check_validity now (some m) =
    if is_pos m.deleted
    then false
    else if is_pos m.expires && ltb_ℤ m.expires now
    then false
    else true

unfoldable pub check_permission : Bool → Bool → Option Meta → Bool
check_permission local internal none = false
check_permission local internal (some m) =
    if not local && m.cronjewel then false else if not internal && m.secret then false else true

unfoldable pub duplicate : Meta → Meta
duplicate m = record {
  created = m.created;
  modified = m.modified;
  expires = m.expires;
  deleted = m.deleted;
  secret = m.secret;
  cronjewel = m.cronjewel;
}
