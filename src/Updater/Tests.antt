-- ===== src/Updater/Tests.antt =====
-- Numbers as versions: 0 is the one of a development build.
use mathlib.Core.Bool.{false≢true}
use portbase.Prelude.{
  ok, drop, ==_iff, sym, ◌∙◌, ℕ, ◌≡◌, ◌≢◌, ◌⊎◌, inl, inr, refl, List, [], ◌∷◌, Bool, true, false,
  Bool-cases, if◌then◌else◌, not, ◌&&◌, none, some, ltb, ◌==◌, arith,
}
use portbase.Updater.{
  blacklist, SemVers, ResourceVersion, Resource, is_selectable, select_version, purge,
  boundary_search,
}
use portbase.Updater.Choice.{
  In, IsSorted, SortLaws, select_version-selectable, select_version-newest,
}
use portbase.Updater.Blacklisting.{IsUsable, blacklist-IsUsable}
use portbase.Updater.Purging.{IsDistinct, purge-needed}

abbrev numbers : SemVers ℕ
numbers = record {
  new_version = λ s. some 1;
  to_string = λ v. "1";
  greater_than = λ a b. ltb b a;
  equal = λ a b. a == b;
  has_prerelease = λ v. false;
  dev_version = 0;
}

abbrev version : ℕ → ℕ → Bool → ResourceVersion ℕ
version a v pre = record {
  address = a;
  version_number = "v";
  sem_ver = v;
  available = true;
  sig_available = false;
  current_release = false;
  pre_release = pre;
  blacklisted = false;
}

-- Sorted insertion, the greatest version first.
abbrev insert : ResourceVersion ℕ → List (ResourceVersion ℕ) → List (ResourceVersion ℕ)
insert v [] = v ∷ []
insert v (w ∷ ws) =
    let rest = insert v ws in if ltb v.sem_ver w.sem_ver then w ∷ rest else v ∷ w ∷ ws

abbrev sort : List (ResourceVersion ℕ) → List (ResourceVersion ℕ)
sort [] = []
sort (v ∷ vs) = insert v (sort vs)

swap : {A : Type 0} {x v w : A} (ws : List A) → In x (v ∷ w ∷ ws) → (x ≡ w) ⊎ In x (v ∷ ws)
swap ws (inl e) = inr (inl e)
swap ws (inr (inl e)) = inl e
swap ws (inr (inr m)) = inr (inr m)

insert-In :
    (v x : ResourceVersion ℕ) (ws : List (ResourceVersion ℕ)) → In x (v ∷ ws) → In x (insert v ws)
insert-In v x [] m = m
insert-In v x (w ∷ ws) m = elim (Bool-cases (ltb v.sem_ver w.sem_ver)) [
  | inl lower ↦ rw lower (elim (swap ws m) [ inl e ↦ inl e | inr k ↦ inr (insert-In v x ws k) ])
  | inr not_lower ↦ rw not_lower m
]

insert-In_inv :
    (v x : ResourceVersion ℕ) (ws : List (ResourceVersion ℕ)) → In x (insert v ws) → In x (v ∷ ws)
insert-In_inv v x [] m = m
insert-In_inv v x (w ∷ ws) m = elim (Bool-cases (ltb v.sem_ver w.sem_ver)) [
  | inl lower ↦ elim (rw lower at m) [
    | inl e ↦ inr (inl e)
    | inr k ↦ elim (insert-In_inv v x ws k) [ inl e ↦ inl e | inr k' ↦ inr (inr k') ]
  ]
  | inr not_lower ↦ rw not_lower at m
]

insert-IsSorted :
    (v : ResourceVersion ℕ) (ws : List (ResourceVersion ℕ))
    → IsSorted numbers ws
    → IsSorted numbers (insert v ws)
insert-IsSorted v [] h = (λ w m. absurd m, h)
insert-IsSorted v (w ∷ ws) h = elim (Bool-cases (ltb v.sem_ver w.sem_ver)) [
  | inl lower ↦ rw lower (
    λ x m. elim (insert-In_inv v x ws m) [ inl e ↦ rw e (ground arith) | inr k ↦ h.0 x k ],
    insert-IsSorted v ws h.1,
  )
  | inr not_lower ↦
      rw not_lower
        (λ x m. elim m [ inl e ↦ rw e not_lower | inr k ↦ let below = h.0 x k in ground arith ], h)
]

sort-In : (vs : List (ResourceVersion ℕ)) (x : ResourceVersion ℕ) → In x vs → In x (sort vs)
sort-In [] x m = m
sort-In (v ∷ vs) x (inl e) = insert-In v x (sort vs) (inl e)
sort-In (v ∷ vs) x (inr m) = insert-In v x (sort vs) (inr (sort-In vs x m))

sort-In_inv : (vs : List (ResourceVersion ℕ)) (x : ResourceVersion ℕ) → In x (sort vs) → In x vs
sort-In_inv [] x m = m
sort-In_inv (v ∷ vs) x m = elim (insert-In_inv v x (sort vs) m) [
  | inl e ↦ inl e
  | inr k ↦ inr (sort-In_inv vs x k)
]

sort-IsSorted : (vs : List (ResourceVersion ℕ)) → IsSorted numbers (sort vs)
sort-IsSorted [] = tt
sort-IsSorted (v ∷ vs) = insert-IsSorted v (sort vs) (sort-IsSorted vs)

sort_lem : SortLaws numbers sort
sort_lem = record {
  keeps = sort-In;
  adds_none = sort-In_inv;
  sorts = sort-IsSorted;
  irreflexive = λ v. ground arith;
}

abbrev with_versions : List (ResourceVersion ℕ) → Resource ℕ
with_versions vs = record {
  registry = record { online = false; dev_mode = false; use_pre_releases = false };
  notifier = none;
  upgradeable = [];
  versions = vs;
  active_version = some 12;
  selected_version = some 12;
  verified = false;
  index = none;
}

abbrev latest : ResourceVersion ℕ
latest = version 12 4 false

abbrev two : Resource ℕ
two = with_versions (version 15 5 true ∷ latest ∷ [])

two-selectable : not latest.pre_release && is_selectable two latest ≡ true
unfolding is_selectable
two-selectable = refl

select_version-selectable_example :
    (v : ResourceVersion ℕ) × ((select_version numbers sort two).selected_version ≡ some v.address)
    × In v two.versions
    × (is_selectable two v ≡ true)
select_version-selectable_example =
    select_version-selectable numbers sort sort_lem two latest refl (inr (inl refl)) two-selectable

two-not_current : (u : ResourceVersion ℕ) → In u two.versions → u.current_release ≡ false
two-not_current u (inl e) = rw e refl
two-not_current u (inr (inl e)) = rw e refl
two-not_current u (inr (inr m)) = absurd m

select_version-newest_example :
    (v : ResourceVersion ℕ) × ((select_version numbers sort two).selected_version ≡ some v.address)
    × (In v two.versions × (not v.pre_release && is_selectable two v ≡ true))
    × ((u : ResourceVersion ℕ)
        → In u two.versions
        → not u.pre_release && is_selectable two u ≡ true
        → ltb v.sem_ver u.sem_ver ≡ false)
select_version-newest_example =
    select_version-newest numbers sort sort_lem two latest refl refl two-not_current
      (inr (inl refl)) two-selectable

abbrev five : List (ResourceVersion ℕ)
five =
    version 15 5 true
    ∷ version 12 4 false
    ∷ version 11 3 false
    ∷ version 10 2 false
    ∷ version 9 1 false
    ∷ []

absent : ℕ → List (ResourceVersion ℕ) → Bool
absent a [] = true
absent a (v ∷ vs) = if v.address == a then false else absent a vs

absent-≢ :
    (a : ℕ) (vs : List (ResourceVersion ℕ)) (w : ResourceVersion ℕ)
    → absent a vs ≡ true
    → In w vs
    → w.address ≢ a
unfolding absent
absent-≢ a [] w h m = absurd m
absent-≢ a (v ∷ vs) w h m = elim (Bool-cases (v.address == a)) [
  | inl is ↦ absurd (false≢true (rw is at h))
  | inr other ↦ elim m [
    | inl e ↦ rw e (λ q. false≢true (sym other ∙ (==_iff v.address a).1 q))
    | inr k ↦ absent-≢ a vs w (rw other at h) k
  ]
]

five-IsDistinct : IsDistinct five
unfolding absent
five-IsDistinct = (
  λ w m. absent-≢ 15 (drop 1 five) w refl m,
  (
    λ w m. absent-≢ 12 (drop 2 five) w refl m,
    (
      λ w m. absent-≢ 11 (drop 3 five) w refl m,
      (λ w m. absent-≢ 10 (drop 4 five) w refl m, (λ w m. absurd m, tt)),
    ),
  ),
)

-- The last version is removed, and is not the one in use.
purge-needed_example : (version 9 1 false).address ≢ 12
unfolding purge boundary_search
purge-needed_example =
    purge-needed 0 12 (with_versions five) (version 9 1 false) five-IsDistinct (inl refl) (inl refl)

abbrev marked : Resource ℕ
marked = with_versions (record (version 15 5 true) { blacklisted = true } ∷ latest ∷ [])

marked_lem : blacklist numbers sort "v" two ≡ ok (select_version numbers sort marked)
unfolding blacklist
marked_lem = refl

blacklist-IsUsable_example :
    (v : ResourceVersion ℕ) × In v (select_version numbers sort marked).versions
    × IsUsable numbers sort v
blacklist-IsUsable_example =
    blacklist-IsUsable numbers sort "v" two (select_version numbers sort marked) sort_lem marked_lem
