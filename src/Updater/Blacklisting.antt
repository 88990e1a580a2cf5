-- ===== src/Updater/Blacklisting.antt =====
-- What Blacklist leaves to select from.
use mathlib.Core.Option.{some-injective, none-ne-some}
use Prim.Native.String.{String}
use text.Mathlib.Text.{◌==◌ as str_eq}
use portbase.Prelude.{
  ℕ, suc, ◌≤◌, ◌<◌, ◌≡◌, ◌⊎◌, inl, inr, refl, ap, ◌∙◌, List, [], ◌∷◌, Bool, true, false, not, ◌&&◌,
  Option, none, some, leb, if◌then◌else◌, Bool-cases, Option-cases, arith, ok, err,
}
use portbase.Updater.{
  SemVers, ResourceVersion, Resource, notify, notify_with, in_use, same_version, valid_count,
  blacklist_in, blacklist, select_version, select_after, last_version,
}
use portbase.Updater.Choice.{In, SortLaws}

if-versions :
    {V : Type 0} (b : Bool) (r s : Resource V)
    → r.versions ≡ s.versions
    → (if b then r else s).versions ≡ s.versions
if-versions true r s e = e
if-versions false r s e = refl

notify_with-versions :
    {V : Type 0} (o : Option ℕ) (res : Resource V) → (notify_with o res).versions ≡ res.versions
notify_with-versions none res = refl
notify_with-versions (some n) res =
    if-versions (in_use res && not (same_version res.selected_version res.active_version)) _ res
      refl

-- The count of one version more, from its two tests.
abbrev tally : Bool → Bool → ℕ → ℕ
tally dev off n = if dev then n else if not off then suc n else n

tally_inv :
    (dev off : Bool) (n : ℕ) → 0 < tally dev off n → ((dev ≡ false) × (off ≡ false)) ⊎ (0 < n)
tally_inv true off n h = inr h
tally_inv false true n h = inr h
tally_inv false false n h = inl (refl, refl)

tally-blacklisted : (dev off : Bool) (n : ℕ) → tally dev off n ≤ suc (tally dev true n)
tally-blacklisted true off n = omega arith
tally-blacklisted false true n = omega arith
tally-blacklisted false false n = omega arith

tally_mono : (dev off : Bool) (n k : ℕ) → n ≤ suc k → tally dev off n ≤ suc (tally dev off k)
tally_mono true off n k h = h
tally_mono false true n k h = h
tally_mono false false n k h = omega arith

module _ {V : Type 0} (sv : SemVers V)
    (sort : List (ResourceVersion V) → List (ResourceVersion V)) where
  select_version-versions :
      (res : Resource V) → (select_version sv sort res).versions ≡ sort res.versions
  unfolding select_version notify
  select_version-versions res = notify_with-versions res.notifier _

  -- What the count counts.
  abbrev pub IsUsable : ResourceVersion V → Type 0
  IsUsable v = (sv.equal v.sem_ver sv.dev_version ≡ false) × (v.blacklisted ≡ false)

  valid_count-finds :
      (vs : List (ResourceVersion V))
      → 0 < valid_count sv sort vs
      → (v : ResourceVersion V) × In v vs × IsUsable v
  valid_count-finds [] some_left = absurd (omega arith)
  valid_count-finds (v ∷ vs) some_left =
      elim (tally_inv (sv.equal v.sem_ver sv.dev_version) v.blacklisted (valid_count sv sort vs)
        some_left) [
          | inl usable ↦ (v, inl refl, usable)
          | inr later ↦
              let (w, within, usable) = valid_count-finds vs later in (w, inr within, usable)
        ]

  -- Blacklisting one version takes at most one from the count.
  count-blacklist_in :
      (version : String) (vs vs' : List (ResourceVersion V))
      → blacklist_in sv sort version vs ≡ some vs'
      → valid_count sv sort vs ≤ suc (valid_count sv sort vs')
  count-blacklist_in version [] vs' e = absurd (none-ne-some vs' e)
  count-blacklist_in version (v ∷ vs) vs' e = elim (Bool-cases (str_eq v.version_number version)) [
    | inl found ↦ rw⁻¹ (some-injective _ vs' (rw found at e)) (
        tally-blacklisted (sv.equal v.sem_ver sv.dev_version) v.blacklisted
          (valid_count sv sort vs))
    | inr other ↦ elim (Option-cases (blacklist_in sv sort version vs)) [
      | inl nothing ↦ absurd (none-ne-some vs' (rw (other, nothing) at e))
      | inr (ws, later) ↦ rw⁻¹ (some-injective _ vs' (rw (other, later) at e)) (
          tally_mono (sv.equal v.sem_ver sv.dev_version) v.blacklisted (valid_count sv sort vs)
            (valid_count sv sort ws) (count-blacklist_in version vs ws later))
    ]
  ]

  after_guards :
      (few : Bool) (o : Option (List (ResourceVersion V))) (res res' : Resource V)
      → (if few then err last_version else select_after sv sort res o) ≡ ok res'
      → (few ≡ false)
        × (vs : List (ResourceVersion V)) × (o ≡ some vs)
        × (res' ≡ select_version sv sort (record res { versions = vs }))
  after_guards true o res res' e = ground arith
  after_guards false none res res' e = ground arith
  after_guards false (some vs) res res' e = (refl, vs, refl, ground arith)

  -- When Blacklist succeeds, one of the versions that it leaves is neither a development version nor
  -- blacklisted.
  pub blacklist-IsUsable :
      (version : String) (res res' : Resource V)
      → SortLaws sv sort
      → blacklist sv sort version res ≡ ok res'
      → (v : ResourceVersion V) × In v res'.versions × IsUsable v
  unfolding blacklist
  blacklist-IsUsable version res res' laws e =
      let (many, vs, marked, is) =
        after_guards (leb (valid_count sv sort res.versions) 1)
          (blacklist_in sv sort version res.versions) res res' e in
      let (v, within, usable) =
        valid_count-finds vs
          (let fewer = count-blacklist_in version res.versions vs marked in ground arith) in
      let kept : res'.versions ≡ sort vs =
        ap (λ (r : Resource V). r.versions) is
        ∙ select_version-versions (record res { versions = vs }) in
      (v, rw kept (laws.keeps vs v within), usable)
