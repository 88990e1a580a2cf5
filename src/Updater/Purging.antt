-- ===== src/Updater/Purging.antt =====
-- Which files Purge removes, and which versions are left in the list.
use mathlib.Core.Option.{some-injective, none-ne-some}
use portbase.Prelude.{
  ℕ, zero, suc, ◌+◌, ◌-◌, ◌≤◌, ◌<◌, ◌≡◌, ◌≢◌, ◌⊎◌, inl, inr, refl, sym, ◌∙◌, List, [], ◌∷◌, Bool,
  true, false, not, ◌&&◌, ◌||◌, Option, none, some, leb, ◌==◌, if◌then◌else◌, Bool-cases, ==_iff,
  arith, length, drop,
}
use portbase.Updater.{
  ResourceVersion, Resource, is_set, any_where, boundary_search, next_skipped, available_of, purge,
  purge_from, at_least_two,
}
use portbase.Updater.Choice.{In}

-- No two records at one address.
abbrev pub IsDistinct : {V : Type 0} → List (ResourceVersion V) → Type 0
IsDistinct [] = Unit
IsDistinct (v ∷ vs) = ((w : ResourceVersion _) → In w vs → w.address ≢ v.address) × IsDistinct vs

drop-In : {A : Type 0} (n : ℕ) (xs : List A) (x : A) → In x (drop n xs) → In x xs
drop-In zero xs x m = m
drop-In (suc n) [] x m = m
drop-In (suc n) (y ∷ xs) x m = inr (drop-In n xs x m)

if-In :
    {A : Type 0} (b : Bool) (x y : A) (xs : List A)
    → In x (if b then y ∷ xs else xs)
    → (x ≡ y) ⊎ In x xs
if-In true x y xs m = m
if-In false x y xs m = inr m

available_of-In :
    {V : Type 0} (vs : List (ResourceVersion V)) (v : ResourceVersion V)
    → In v (available_of vs)
    → In v vs
available_of-In [] v m = m
available_of-In (w ∷ vs) v m = elim (if-In w.available v w (available_of vs) m) [
  | inl is ↦ inl is
  | inr later ↦ inr (available_of-In vs v later)
]

or_true : (a : Bool) → a || true ≡ true
or_true true = refl
or_true false = refl

minus_zero : (n : ℕ) → n - 0 ≡ n
minus_zero n = omega arith

module _ {V : Type 0} (keep : ℕ) where
  -- A boundary that is found lies at least `keep` behind the start of the search.
  boundary_search-le :
      (act sel : Option ℕ) (i : ℕ) (x y z : Bool) (vs : List (ResourceVersion V))
      → 0 < boundary_search act sel keep i x y z vs
      → i + keep ≤ boundary_search act sel keep i x y z vs
  unfolding boundary_search
  boundary_search-le act sel i x y z [] found = omega arith
  boundary_search-le act sel i x y z (v ∷ vs) found =
      elim (Bool-cases ((not x && is_set act) || ((not y && is_set sel) || not z))) [
        | inl on ↦ rw on (
            let later =
              boundary_search-le act sel (suc i) (next_skipped act x v) (next_skipped sel y v)
                (not v.pre_release || z) vs (rw on at found) in
            omega arith)
        | inr stops ↦ rw stops (omega arith)
      ]

  drop-step :
      (b i : ℕ) (v w : ResourceVersion V) (vs : List (ResourceVersion V))
      → suc i ≤ b
      → In w (drop (b - i) (v ∷ vs))
      → In w (drop (b - suc i) vs)
  drop-step b i v w vs h m = let e : b - i ≡ suc (b - suc i) = omega arith in rw e at m

  -- The version in use lies before the boundary.
  search-active :
      (a : ℕ) (sel : Option ℕ) (i : ℕ) (y z : Bool) (vs : List (ResourceVersion V))
      (w : ResourceVersion V)
      → IsDistinct vs
      → 0 < boundary_search (some a) sel keep i false y z vs
      → In w (drop (boundary_search (some a) sel keep i false y z vs - i) vs)
      → w.address ≢ a
  unfolding boundary_search
  search-active a sel i y z [] w distinct found m = absurd (omega arith)
  search-active a sel i y z (v ∷ vs) w distinct found m =
      let flag = next_skipped sel y v in
      let stable = not v.pre_release || z in
      let le =
        boundary_search-le (some a) sel (suc i) (a == v.address || false) flag stable vs found in
      let m' =
        drop-step
          (boundary_search (some a) sel keep (suc i) (a == v.address || false) flag stable vs) i v w
          vs (omega arith) m in
      elim (Bool-cases (a == v.address)) [
        | inl is ↦ λ e. distinct.0 w (drop-In _ vs w m') (e ∙ (==_iff a v.address).0 is)
        | inr other ↦
            search-active a sel (suc i) flag stable vs w distinct.1 (rw other at found)
              (rw other at m')
      ]

  -- The selected version lies before the boundary.
  search-selected :
      (act : Option ℕ) (a : ℕ) (i : ℕ) (x z : Bool) (vs : List (ResourceVersion V))
      (w : ResourceVersion V)
      → IsDistinct vs
      → 0 < boundary_search act (some a) keep i x false z vs
      → In w (drop (boundary_search act (some a) keep i x false z vs - i) vs)
      → w.address ≢ a
  unfolding boundary_search
  search-selected act a i x z [] w distinct found m = absurd (omega arith)
  search-selected act a i x z (v ∷ vs) w distinct found' n =
      let found = rw (or_true (not x && is_set act)) at found' in
      let m = rw (or_true (not x && is_set act)) at n in
      let flag = next_skipped act x v in
      let stable = not v.pre_release || z in
      let le =
        boundary_search-le act (some a) (suc i) flag (a == v.address || false) stable vs found in
      let m' =
        drop-step
          (boundary_search act (some a) keep (suc i) flag (a == v.address || false) stable vs) i v w
          vs (omega arith) m in
      elim (Bool-cases (a == v.address)) [
        | inl is ↦ λ e. distinct.0 w (drop-In _ vs w m') (e ∙ (==_iff a v.address).0 is)
        | inr other ↦
            search-selected act a (suc i) flag stable vs w distinct.1 (rw other at found)
              (rw other at m')
      ]

  search-active_at :
      (act sel : Option ℕ) (a : ℕ) (vs : List (ResourceVersion V)) (w : ResourceVersion V)
      → act ≡ some a
      → IsDistinct vs
      → 0 < boundary_search act sel keep 0 false false false vs
      → In w (drop (boundary_search act sel keep 0 false false false vs) vs)
      → w.address ≢ a
  search-active_at none sel a vs w is distinct found m = absurd (none-ne-some a is)
  search-active_at (some c) sel a vs w is distinct found m = λ e.
      search-active c sel 0 false false vs w distinct found
        (rw (minus_zero (boundary_search (some c) sel keep 0 false false false vs)) m)
        (e ∙ sym (some-injective c a is))

  search-selected_at :
      (act sel : Option ℕ) (a : ℕ) (vs : List (ResourceVersion V)) (w : ResourceVersion V)
      → sel ≡ some a
      → IsDistinct vs
      → 0 < boundary_search act sel keep 0 false false false vs
      → In w (drop (boundary_search act sel keep 0 false false false vs) vs)
      → w.address ≢ a
  search-selected_at act none a vs w is distinct found m = absurd (none-ne-some a is)
  search-selected_at act (some c) a vs w is distinct found m = λ e.
      search-selected act c 0 false false vs w distinct found
        (rw (minus_zero (boundary_search act (some c) keep 0 false false false vs)) m)
        (e ∙ sym (some-injective c a is))

-- A resource with the versions of which the files are removed.
abbrev pub Purged : Type 0 → Type 0
Purged V = Resource V × List (ResourceVersion V)

module _ {V : Type 0} where
  if-In_removed :
      {C : Type 0} (b : Bool) (p q : Purged V) (w : ResourceVersion V)
      → (In w p.1 → C)
      → (b ≡ false → In w q.1 → C)
      → In w (if b then p else q).1
      → C
  if-In_removed true p q w first second m = first m
  if-In_removed false p q w first second m = second refl m

  -- What is removed lies from the boundary on.
  purge_from-removed :
      (keep boundary : ℕ) (res : Resource V) (w : ResourceVersion V)
      → In w (purge_from keep boundary res).1
      → (0 < boundary) × In w (drop boundary res.versions)
  purge_from-removed keep boundary res w m =
      if-In_removed (leb boundary keep || leb (length res.versions) boundary) (res, [])
        (
          record res { versions = drop boundary res.versions },
          available_of (drop boundary res.versions),
        )
        w (λ k. absurd k) (λ e k. (ground arith, available_of-In (drop boundary res.versions) w k))
        m

  -- Where no two versions are at one address, Purge removes no files of the version in use, and none of
  -- the selected version.
  pub purge-needed :
      (keep a : ℕ) (res : Resource V) (w : ResourceVersion V)
      → IsDistinct res.versions
      → (res.active_version ≡ some a) ⊎ (res.selected_version ≡ some a)
      → In w (purge keep res).1
      → w.address ≢ a
  unfolding purge
  purge-needed keep a res w distinct needed m =
      let (found, behind) = purge_from-removed (at_least_two keep) _ res w (
        if-In_removed (any_where (λ rv. rv.blacklisted) res.versions) (res, []) _ w (λ k. absurd k)
          (λ e k. k) m) in
      elim needed [
        | inl active ↦
            search-active_at (at_least_two keep) res.active_version res.selected_version a
              res.versions w active distinct found behind
        | inr selected ↦
            search-selected_at (at_least_two keep) res.active_version res.selected_version a
              res.versions w selected distinct found behind
      ]
