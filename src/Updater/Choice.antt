-- ===== src/Updater/Choice.antt =====
-- Which version selectVersion selects.
use mathlib.Core.Bool.{false≢true}
use mathlib.Core.Option.{some-injective, none-ne-some}
use portbase.Prelude.{
  ap, ℕ, ◌≡◌, ◌⊎◌, Option-cases, inl, inr, refl, sym, ◌∙◌, List, [], ◌∷◌, Bool, true, false, not,
  ◌&&◌, Option, none, some, Bool-cases, if◌then◌else◌,
}
use portbase.Updater.{
  SemVers, ResourceVersion, Resource, is_selectable, notify_with, same_version, notify, dev_release,
  current_release_of, newest, newest_stable, choose, select_version, first_where, or_else, only_if,
  keep_if, address_of, in_use,
}

-- Being an element of a list.
abbrev pub In : {A : Type 0} → A → List A → Type 0
In x [] = ⊥
In x (y ∷ ys) = (x ≡ y) ⊎ In x ys

-- Sorted by Less of the resource: no version is greater than one before it.
abbrev pub IsSorted : {V : Type 0} → SemVers V → List (ResourceVersion V) → Type 0
IsSorted sv [] = Unit
IsSorted sv (v ∷ vs) =
    ((w : ResourceVersion _) → In w vs → sv.greater_than w.sem_ver v.sem_ver ≡ false)
    × IsSorted sv vs

module _ {A : Type 0} (test : A → Bool) where
  first_where-In : (xs : List A) (x : A) → first_where test xs ≡ some x → In x xs × (test x ≡ true)
  first_where-In [] x e = absurd (none-ne-some x e)
  first_where-In (y ∷ xs) x e = elim (Bool-cases (test y)) [
    | inl passes ↦ let is = some-injective y x (rw passes at e) in (inl (sym is), rw⁻¹ is passes)
    | inr fails ↦ let (later, passes) = first_where-In xs x (rw fails at e) in (inr later, passes)
  ]

  first_where-none : (xs : List A) (x : A) → first_where test xs ≡ none → In x xs → test x ≡ false
  first_where-none [] x e m = absurd m
  first_where-none (y ∷ xs) x e m = elim (Bool-cases (test y)) [
    | inl passes ↦ absurd (none-ne-some y (sym (rw passes at e)))
    | inr fails ↦ elim m [
      | inl is ↦ rw is fails
      | inr later ↦ first_where-none xs x (rw fails at e) later
    ]
  ]

module _ {V : Type 0} (sv : SemVers V) (irreflexive : (v : V) → sv.greater_than v v ≡ false) where
  -- The first that passes in a sorted list is not older than any other that passes.
  first_where_newest :
      (test : ResourceVersion V → Bool) (vs : List (ResourceVersion V)) (v w : ResourceVersion V)
      → IsSorted sv vs
      → first_where test vs ≡ some v
      → In w vs
      → test w ≡ true
      → sv.greater_than w.sem_ver v.sem_ver ≡ false
  first_where_newest test [] v w sorted e m passes = absurd m
  first_where_newest test (y ∷ vs) v w sorted e m passes = elim (Bool-cases (test y)) [
    | inl first ↦
        let is = some-injective y v (rw first at e) in
        elim m [
          | inl same ↦ rw (same, sym is) (irreflexive y.sem_ver)
          | inr later ↦ rw⁻¹ is (sorted.0 w later)
        ]
    | inr fails ↦ elim m [
      | inl same ↦ absurd (false≢true (sym (rw (← same) at fails) ∙ passes))
      | inr later ↦ first_where_newest test vs v w sorted.1 (rw fails at e) later passes
    ]
  ]

-- What is chosen is among the versions and passes.
module _ {V : Type 0} (res : Resource V) (vs : List (ResourceVersion V)) where
  abbrev IsFine : ResourceVersion V → Type 0
  IsFine v = In v vs × (is_selectable res v ≡ true)

  or_else-IsFine :
      (o p : Option (ResourceVersion V))
      → ((v : ResourceVersion V) → o ≡ some v → IsFine v)
      → (v : ResourceVersion V) × (p ≡ some v) × IsFine v
      → (v : ResourceVersion V) × (or_else o p ≡ some v) × IsFine v
  or_else-IsFine none p first second = second
  or_else-IsFine (some v) p first second = (v, refl, first v refl)

  keep_if-IsFine :
      (o : Option (ResourceVersion V)) (v : ResourceVersion V)
      → ((w : ResourceVersion V) → o ≡ some w → In w vs)
      → keep_if (is_selectable res) o ≡ some v
      → IsFine v
  keep_if-IsFine none v found e = absurd (none-ne-some v e)
  keep_if-IsFine (some w) v found e = elim (Bool-cases (is_selectable res w)) [
    | inl passes ↦ let is = some-injective w v (rw passes at e) in rw⁻¹ is (found w refl, passes)
    | inr fails ↦ absurd (none-ne-some v (rw fails at e))
  ]

  only_if-some :
      (b : Bool) (o : Option (ResourceVersion V)) (v : ResourceVersion V)
      → only_if b o ≡ some v
      → o ≡ some v
  only_if-some true o v e = e
  only_if-some false o v e = absurd (none-ne-some v e)

-- Documented of sort.Sort: the same elements, in the order that Less asks for; and of GreaterThan.
pub record SortLaws {V : Type 0} (sv : SemVers V)
    (sort : List (ResourceVersion V) → List (ResourceVersion V)) : Type 0 where
  pub keeps : (vs : List (ResourceVersion V)) (v : ResourceVersion V) → In v vs → In v (sort vs)
  pub adds_none : (vs : List (ResourceVersion V)) (v : ResourceVersion V) → In v (sort vs) → In v vs
  pub sorts : (vs : List (ResourceVersion V)) → IsSorted sv (sort vs)
  pub irreflexive : (v : V) → sv.greater_than v v ≡ false

if-selected :
    {V : Type 0} (b : Bool) (r s : Resource V)
    → r.selected_version ≡ s.selected_version
    → (if b then r else s).selected_version ≡ s.selected_version
if-selected true r s e = e
if-selected false r s e = refl

notify_with-selected :
    {V : Type 0} (o : Option ℕ) (res : Resource V)
    → (notify_with o res).selected_version ≡ res.selected_version
notify_with-selected none res = refl
notify_with-selected (some n) res =
    if-selected (in_use res && not (same_version res.selected_version res.active_version)) _ res
      refl

notify-selected :
    {V : Type 0} (res : Resource V) → (notify res).selected_version ≡ res.selected_version
unfolding notify
notify-selected res = notify_with-selected res.notifier res

only_if_not : {A : Type 0} (b : Bool) (o : Option A) → b ≡ false → only_if b o ≡ none
only_if_not true o e = absurd (false≢true (sym e))
only_if_not false o e = refl

and_inv : (a b : Bool) → a && b ≡ true → (a ≡ true) × (b ≡ true)
and_inv true b e = (refl, e)
and_inv false b e = absurd (false≢true e)

module _ {V : Type 0} (sv : SemVers V) (sort : List (ResourceVersion V) → List (ResourceVersion V))
    (laws : SortLaws sv sort) where
  dev_release-none :
      (res : Resource V) (vs : List (ResourceVersion V))
      → res.registry.dev_mode ≡ false
      → dev_release sv sort res vs ≡ none
  unfolding dev_release
  dev_release-none res vs e = only_if_not res.registry.dev_mode _ e

  newest-none :
      (res : Resource V) (vs : List (ResourceVersion V))
      → res.registry.use_pre_releases ≡ false
      → newest sv sort res vs ≡ none
  unfolding newest
  newest-none res vs e = only_if_not res.registry.use_pre_releases _ e

  -- A stable version that is selectable is found.
  newest_stable-finds :
      (res : Resource V) (vs : List (ResourceVersion V)) (w : ResourceVersion V)
      → In w vs
      → not w.pre_release && is_selectable res w ≡ true
      → (v : ResourceVersion V) × (newest_stable sv sort res vs ≡ some v)
        × (In v vs × (not v.pre_release && is_selectable res v ≡ true))
  unfolding newest_stable
  newest_stable-finds res vs w m passes =
      let test : ResourceVersion V → Bool = λ rv. not rv.pre_release && is_selectable res rv in
      elim (Option-cases (first_where test vs)) [
        | inl nothing ↦ absurd (false≢true (sym (first_where-none test vs w nothing m) ∙ passes))
        | inr found ↦ (found.0, found.1, first_where-In test vs found.0 found.1)
      ]

  choose-IsFine :
      (res : Resource V) (vs : List (ResourceVersion V)) (w : ResourceVersion V)
      → res.registry.dev_mode ≡ false
      → In w vs
      → not w.pre_release && is_selectable res w ≡ true
      → (v : ResourceVersion V) × (choose sv sort res vs ≡ some v) × IsFine res vs v
  unfolding choose current_release_of newest
  choose-IsFine res vs w no_dev m passes =
      let (stable, found, (within, fine)) = newest_stable-finds res vs w m passes in
      rw (dev_release-none res vs no_dev) (
        or_else-IsFine res vs (current_release_of sv sort res vs) _
          (λ v e.
            keep_if-IsFine res vs (first_where (λ rv. rv.current_release) vs) v
              (λ x f. (first_where-In (λ rv. rv.current_release) vs x f).0) e)
          (or_else-IsFine res vs (newest sv sort res vs) _
            (λ v e.
              first_where-In (is_selectable res) vs v
                (only_if-some res vs res.registry.use_pre_releases _ v e))
            (stable, rw found refl, (within, (and_inv (not stable.pre_release) _ fine).1))))

  -- Outside of the dev mode, as soon as one of the versions is stable and selectable, the version that
  -- selectVersion selects is one of the versions, and selectable: not blacklisted, and available or ready
  -- to be downloaded.
  pub select_version-selectable :
      (res : Resource V) (w : ResourceVersion V)
      → res.registry.dev_mode ≡ false
      → In w res.versions
      → not w.pre_release && is_selectable res w ≡ true
      → (v : ResourceVersion V) × ((select_version sv sort res).selected_version ≡ some v.address)
        × In v res.versions
        × (is_selectable res v ≡ true)
  unfolding select_version
  select_version-selectable res w no_dev m passes =
      let (v, chosen, (within, fine)) =
        choose-IsFine res (sort res.versions) w no_dev (laws.keeps res.versions w m) passes in
      (v, notify-selected _ ∙ ap address_of chosen, laws.adds_none res.versions v within, fine)

  current_release_of-none :
      (res : Resource V) (vs : List (ResourceVersion V))
      → ((u : ResourceVersion V) → In u vs → u.current_release ≡ false)
      → current_release_of sv sort res vs ≡ none
  unfolding current_release_of
  current_release_of-none res vs no_current =
      elim (Option-cases (first_where (λ rv. rv.current_release) vs)) [
        | inl nothing ↦ rw nothing refl
        | inr found ↦
            let (within, current) = first_where-In (λ rv. rv.current_release) vs found.0 found.1 in
            absurd (false≢true (sym (no_current found.0 within) ∙ current))
      ]

  newest_stable-newest :
      (res : Resource V) (v u : ResourceVersion V)
      → newest_stable sv sort res (sort res.versions) ≡ some v
      → In u res.versions
      → not u.pre_release && is_selectable res u ≡ true
      → sv.greater_than u.sem_ver v.sem_ver ≡ false
  unfolding newest_stable
  newest_stable-newest res v u e m passes =
      first_where_newest sv laws.irreflexive (λ rv. not rv.pre_release && is_selectable res rv)
        (sort res.versions) v u (laws.sorts res.versions) e (laws.keeps res.versions u m) passes

  choose-stable :
      (res : Resource V) (vs : List (ResourceVersion V)) (v : ResourceVersion V)
      → res.registry.dev_mode ≡ false
      → res.registry.use_pre_releases ≡ false
      → ((u : ResourceVersion V) → In u vs → u.current_release ≡ false)
      → newest_stable sv sort res vs ≡ some v
      → choose sv sort res vs ≡ some v
  unfolding choose
  choose-stable res vs v no_dev no_pre no_current e =
      rw (dev_release-none res vs no_dev) (
        rw (current_release_of-none res vs no_current) (rw (newest-none res vs no_pre) (rw e refl)))

  -- Outside of the dev mode, without the use of pre-releases and with no version marked as the current
  -- release: as soon as one of the versions is stable and selectable, the version that selectVersion
  -- selects is one of the versions, stable and selectable, and no stable and selectable version is
  -- greater.
  pub select_version-newest :
      (res : Resource V) (w : ResourceVersion V)
      → res.registry.dev_mode ≡ false
      → res.registry.use_pre_releases ≡ false
      → ((u : ResourceVersion V) → In u res.versions → u.current_release ≡ false)
      → In w res.versions
      → not w.pre_release && is_selectable res w ≡ true
      → (v : ResourceVersion V) × ((select_version sv sort res).selected_version ≡ some v.address)
        × (In v res.versions × (not v.pre_release && is_selectable res v ≡ true))
        × ((u : ResourceVersion V)
            → In u res.versions
            → not u.pre_release && is_selectable res u ≡ true
            → sv.greater_than u.sem_ver v.sem_ver ≡ false)
  unfolding select_version
  select_version-newest res w no_dev no_pre no_current m passes =
      let vs = sort res.versions in
      let (v, found, (within, fine)) =
        newest_stable-finds res vs w (laws.keeps res.versions w m) passes in
      let chosen =
        choose-stable res vs v no_dev no_pre (λ u k. no_current u (laws.adds_none res.versions u k))
          found in
      (
        v,
        notify-selected _ ∙ ap address_of chosen,
        (laws.adds_none res.versions v within, fine),
        λ u k p. newest_stable-newest res v u found k p,
      )
