-- ===== src/Record/Meta/Expiry.antt =====
-- The life of a record: expiry, deletion and permissions.
use portbase.Prelude.{
  ℕ, zero, suc, ◌+◌, ◌-◌, ◌^◌, ◌<◌, ◌≡◌, refl, ◌∙◌, Bool, true, false, not, ◌&&◌, ◌||◌, some, leb,
  if◌then◌else◌, arith,
}
use portbase.Prelude.Int.{pos, negsuc, sub64, sub64-pos, sub64-negsuc}
use portbase.Record.Meta.{
  Meta, set_absolute_expiry, set_relativate_expiry, get_relative_expiry, update, reset, delete,
  is_deleted, check_validity, check_permission, make_secret, make_crown_jewel,
}

negated : (k : ℕ) → suc k < 2 ^ 63 → sub64 (pos 0) (pos (suc k)) ≡ negsuc k
negated k h = sub64-pos 0 (suc k) (omega arith) h ∙ ground arith

-- The fields that matter after the update.
updated :
    (k now : ℕ) (m : Meta)
    → now + suc k < 2 ^ 63
    → ((update (pos now) (set_relativate_expiry (pos (suc k)) m)).expires ≡ pos (now + suc k))
      × ((update (pos now) (set_relativate_expiry (pos (suc k)) m)).deleted ≡ negsuc k)
unfolding update set_relativate_expiry
updated k now m h = rw (negated k (omega arith)) (sub64-negsuc now k h, refl)

valid_until :
    (m : Meta) (end later k : ℕ)
    → m.expires ≡ pos end
    → m.deleted ≡ negsuc k
    → 0 < end
    → check_validity (pos later) (some m) ≡ leb later end
unfolding check_validity
valid_until m end later k e d h = rw (d, e) (ground arith)

seconds_left :
    (m : Meta) (end later : ℕ)
    → m.expires ≡ pos end
    → 0 < end
    → end < 2 ^ 63
    → later < 2 ^ 63
    → get_relative_expiry (pos later) m ≡ (if leb later end then pos (end - later) else pos 0)
unfolding get_relative_expiry
seconds_left m end later e h fits small = rw (e, sub64-pos end later fits small) (ground arith)

-- A relative expiry of at least one second, set before an update at `now`, keeps a record valid up to
-- `now + ttl` and not later, and GetRelativeExpiry counts the seconds down to 0.
pub update-set_relativate_expiry :
    (ttl now later : ℕ) (m : Meta)
    → 0 < ttl
    → now + ttl < 2 ^ 63
    → later < 2 ^ 63
    → (check_validity (pos later) (some (update (pos now) (set_relativate_expiry (pos ttl) m)))
        ≡ leb later (now + ttl))
      × (get_relative_expiry (pos later) (update (pos now) (set_relativate_expiry (pos ttl) m))
          ≡ (if leb later (now + ttl) then pos (now + ttl - later) else pos 0))
update-set_relativate_expiry zero now later m h fits small = absurd (omega arith)
update-set_relativate_expiry (suc k) now later m h fits small =
    let (e, d) = updated k now m fits in
    (
      valid_until _ (now + suc k) later k e d (omega arith),
      seconds_left _ (now + suc k) later e (omega arith) fits small,
    )

-- A relative expiry that is set after the update, as Options.Apply does, has no effect yet: a record
-- without an expiry that is not deleted stays valid at every later time.
pub set_relativate_expiry-update :
    (ttl now later : ℕ) (m : Meta)
    → (update (pos now) m).expires ≡ pos 0
    → 0 < ttl
    → ttl < 2 ^ 63
    → check_validity (pos later) (some (set_relativate_expiry (pos ttl) (update (pos now) m)))
      ≡ true
unfolding check_validity update set_relativate_expiry
set_relativate_expiry-update zero now later m e h fits = absurd (omega arith)
set_relativate_expiry-update (suc k) now later m e h fits = ground (arith, negated k fits)

-- A record that is deleted at a time after 0 and then updated counts as deleted and is not valid at any
-- time from 0 on; setting an absolute expiry of none in between makes it valid again.
pub delete_final :
    (now later touched : ℕ) (m : Meta)
    → 0 < now
    → (check_validity (pos later) (some (update (pos touched) (delete (pos now) m))) ≡ false)
      × (is_deleted (update (pos touched) (delete (pos now) m)) ≡ true)
      × (check_validity
            (pos later)
            (some (update (pos touched) (set_absolute_expiry (pos 0) (delete (pos now) m))))
          ≡ true)
unfolding check_validity update delete is_deleted set_absolute_expiry
delete_final now later touched m h = ground arith

-- A reader may see a record if it is local or the record is no crown jewel, and internal or the record
-- is no secret.
pub check_permission_iff :
    (local internal : Bool) (m : Meta)
    → check_permission local internal (some m)
      ≡ ((local || not m.cronjewel) && (internal || not m.secret))
unfolding check_permission
check_permission_iff local internal m = ground arith

-- MakeSecret leaves a record to its internal readers, MakeCrownJewel to its local ones, and Reset
-- changes nobody's permission.
pub check_permission_narrows :
    (local internal : Bool) (m : Meta)
    → (check_permission local internal (some (make_secret m))
        ≡ (internal && check_permission local internal (some m)))
      × (check_permission local internal (some (make_crown_jewel m))
          ≡ (local && check_permission local internal (some m)))
      × (check_permission local internal (some (reset m))
          ≡ check_permission local internal (some m))
unfolding check_permission make_secret make_crown_jewel reset
check_permission_narrows local internal m = ground arith
