-- ===== src/Modules/Safety/Names.antt =====
-- What initDependencies makes of the names of dependencies.
use mathlib.Core.Bool.{false≢true}
use mathlib.Core.Option.{some-injective, none-ne-some}
use mathlib.Core.Path.{subst}
use portbase.Prelude.{
  ℕ, ◌≡◌, refl, sym, ◌∙◌, List, [], ◌∷◌, ◌++◌, true, some, ◌==◌, ==_iff, Bool-cases, Option-cases,
  inl, inr, if_inv, ◌⊎◌,
}
use portbase.Modules.{System}
use portbase.Modules.Depend.{
  has, add_dependency, add_reverse, link, link_names, link_modules, init_dependencies,
}
use portbase.Modules.Safety.Writes.{IsSafe, write-field}
use portbase.Modules.Safety.Linked.{
  IsFresh, IsFresh-IsSafe, init_dependencies-IsFresh, has-append_keeps, has-append_last,
  add_reverse-deps, add_dependency-deps_inv,
}

-- Links are added; the names and the list of modules stay.
record Grows (s t : System) : Type 0 where
  same_modules : t.modules ≡ s.modules
  same_names : (i : ℕ) → (t.entry i).dep_names ≡ (s.entry i).dep_names
  keeps : (i d : ℕ) → has d (s.entry i).dep_modules ≡ true → has d (t.entry i).dep_modules ≡ true

Grows-refl : (s : System) → Grows s s
Grows-refl s = record { same_modules = refl; same_names = λ i. refl; keeps = λ i d e. e }

Grows-trans : {s t u : System} → Grows s t → Grows t u → Grows s u
Grows-trans g h = record {
  same_modules = h.same_modules ∙ g.same_modules;
  same_names = λ i. h.same_names i ∙ g.same_names i;
  keeps = λ i d e. h.keeps i d (g.keeps i d e);
}

module _ (s : System) (i d : ℕ) where
  add_dependency-keeps :
      (j x : ℕ)
      → has x (s.entry j).dep_modules ≡ true
      → has x ((add_dependency s i d).entry j).dep_modules ≡ true
  unfolding add_dependency
  add_dependency-keeps j x e = elim (Bool-cases (j == i)) [
    | inl is ↦ rw is (has-append_keeps x d (s.entry i).dep_modules (rw ((==_iff j i).0 is) at e))
    | inr other ↦ rw other e
  ]

  add_dependency-adds : has d ((add_dependency s i d).entry i).dep_modules ≡ true
  unfolding add_dependency
  add_dependency-adds = rw ((==_iff i i).1 refl) (has-append_last d (s.entry i).dep_modules)

  add_dependency-names :
      (j : ℕ) → ((add_dependency s i d).entry j).dep_names ≡ (s.entry j).dep_names
  unfolding add_dependency
  add_dependency-names j =
      write-field (λ m. m.dep_names) s i
        (record (s.entry i) { dep_modules = (s.entry i).dep_modules ++ d ∷ [] }) j refl

  add_reverse-names : (j : ℕ) → ((add_reverse s i d).entry j).dep_names ≡ (s.entry j).dep_names
  unfolding add_reverse
  add_reverse-names j =
      write-field (λ m. m.dep_names) s d
        (record (s.entry d) { dep_reverse = (s.entry d).dep_reverse ++ i ∷ [] }) j refl

link-Grows : (s : System) (i d : ℕ) → Grows s (link s i d)
unfolding link add_dependency add_reverse
link-Grows s i d =
    let s' = add_dependency s i d in
    record {
      same_modules = refl;
      same_names = λ j. add_reverse-names s' i d j ∙ add_dependency-names s i d j;
      keeps = λ j x e. rw (add_reverse-deps s' i d j) (add_dependency-keeps s i d j x e);
    }

link-adds : (s : System) (i d : ℕ) → has d ((link s i d).entry i).dep_modules ≡ true
unfolding link
link-adds s i d = rw (add_reverse-deps (add_dependency s i d) i d i) (add_dependency-adds s i d)

link_names-Grows : (s t : System) (i : ℕ) (ds : List ℕ) → link_names s i ds ≡ some t → Grows s t
unfolding link_names
link_names-Grows s t i [] e = subst (Grows s) (some-injective _ _ e) (Grows-refl s)
link_names-Grows s t i (d ∷ ds) e = elim (if_inv (has d s.modules) e) [
  | inl (is, rest) ↦ Grows-trans (link-Grows s i d) (link_names-Grows (link s i d) t i ds rest)
  | inr (other, missing) ↦ absurd (none-ne-some _ missing)
]

link_names-all :
    (s t : System) (i d : ℕ) (ds : List ℕ)
    → link_names s i ds ≡ some t
    → has d ds ≡ true
    → (has d s.modules ≡ true) × (has d (t.entry i).dep_modules ≡ true)
unfolding link_names
link_names-all s t i d [] e h = absurd (false≢true h)
link_names-all s t i d (x ∷ ds) e h = elim (if_inv (has x s.modules) e) [
  | inr (other, missing) ↦ absurd (none-ne-some _ missing)
  | inl (is, rest) ↦ elim (if_inv (d == x) h) [
    | inl (same, _) ↦
        let now = sym ((==_iff d x).0 same) in
        subst (λ y. (has y s.modules ≡ true) × (has y (t.entry i).dep_modules ≡ true)) now
          (is, (link_names-Grows (link s i x) t i ds rest).keeps i x (link-adds s i x))
    | inr (_, later) ↦
        let found = link_names-all (link s i x) t i d ds rest later in
        (subst (λ l. has d l ≡ true) (link-Grows s i x).same_modules found.0, found.1)
  ]
]

link_modules-Grows : (s t : System) (l : List ℕ) → link_modules s l ≡ some t → Grows s t
unfolding link_modules
link_modules-Grows s t [] e = subst (Grows s) (some-injective _ _ e) (Grows-refl s)
link_modules-Grows s t (i ∷ rest) e = elim (Option-cases (link_names s i (s.entry i).dep_names)) [
  | inl missing ↦ absurd (none-ne-some _ (rw (missing, link_modules) at e))
  | inr (u, is) ↦
      Grows-trans (link_names-Grows s u i (s.entry i).dep_names is)
        (link_modules-Grows u t rest (rw (is, link_modules) at e))
]

link_modules-all :
    (s t : System) (i d : ℕ) (l : List ℕ)
    → link_modules s l ≡ some t
    → has i l ≡ true
    → has d (s.entry i).dep_names ≡ true
    → (has d s.modules ≡ true) × (has d (t.entry i).dep_modules ≡ true)
unfolding link_modules
link_modules-all s t i d [] e h named = absurd (false≢true h)
link_modules-all s t i d (j ∷ rest) e h named =
    elim (Option-cases (link_names s j (s.entry j).dep_names)) [
      | inl missing ↦ absurd (none-ne-some _ (rw (missing, link_modules) at e))
      | inr (u, is) ↦
          let later = rw (is, link_modules) at e in
          let grown = link_names-Grows s u j (s.entry j).dep_names is in
          elim (if_inv (i == j) h) [
            | inl (same, _) ↦
                let at_j = (==_iff i j).0 same in
                let linked =
                  link_names-all s u i d (s.entry i).dep_names
                    (subst (λ k. link_names s k (s.entry k).dep_names ≡ some u) (sym at_j) is)
                    named in
                (linked.0, (link_modules-Grows u t rest later).keeps i d linked.1)
            | inr (_, there) ↦
                let linked =
                  link_modules-all u t i d rest later there
                    (subst (λ l. has d l ≡ true) (sym (grown.same_names i)) named) in
                (subst (λ l. has d l ≡ true) grown.same_modules linked.0, linked.1)
          ]
    ]

has-head : (x d : ℕ) (ds : List ℕ) → x ≡ d → has x (d ∷ ds) ≡ true
has-head x d ds same = rw ((==_iff x d).1 same) refl

has-later : (x d : ℕ) (ds : List ℕ) → has x ds ≡ true → has x (d ∷ ds) ≡ true
has-later x d ds h = elim (Bool-cases (x == d)) [ inl is ↦ rw is refl | inr other ↦ rw other h ]

link-only :
    (s : System) (i d j x : ℕ)
    → has x ((link s i d).entry j).dep_modules ≡ true
    → (has x (s.entry j).dep_modules ≡ true) ⊎ ((j ≡ i) × (x ≡ d))
unfolding link
link-only s i d j x h =
    add_dependency-deps_inv s i d j x (rw (add_reverse-deps (add_dependency s i d) i d j) at h)

link_names-only :
    (s t : System) (i j x : ℕ) (ds : List ℕ)
    → link_names s i ds ≡ some t
    → has x (t.entry j).dep_modules ≡ true
    → (has x (s.entry j).dep_modules ≡ true) ⊎ ((j ≡ i) × (has x ds ≡ true))
unfolding link_names
link_names-only s t i j x [] e h =
    inl (subst (λ u. has x (u.entry j).dep_modules ≡ true) (sym (some-injective _ _ e)) h)
link_names-only s t i j x (d ∷ ds) e h = elim (if_inv (has d s.modules) e) [
  | inr (other, missing) ↦ absurd (none-ne-some _ missing)
  | inl (is, rest) ↦ elim (link_names-only (link s i d) t i j x ds rest h) [
    | inr (at_i, named) ↦ inr (at_i, has-later x d ds named)
    | inl linked ↦ elim (link-only s i d j x linked) [
      | inl old ↦ inl old
      | inr (at_i, new) ↦ inr (at_i, has-head x d ds new)
    ]
  ]
]

link_modules-only :
    (s t : System) (j x : ℕ) (l : List ℕ)
    → link_modules s l ≡ some t
    → has x (t.entry j).dep_modules ≡ true
    → (has x (s.entry j).dep_modules ≡ true)
      ⊎ ((has j l ≡ true) × (has x (s.entry j).dep_names ≡ true))
unfolding link_modules
link_modules-only s t j x [] e h =
    inl (subst (λ u. has x (u.entry j).dep_modules ≡ true) (sym (some-injective _ _ e)) h)
link_modules-only s t j x (i ∷ rest) e h =
    elim (Option-cases (link_names s i (s.entry i).dep_names)) [
      | inl missing ↦ absurd (none-ne-some _ (rw (missing, link_modules) at e))
      | inr (u, is) ↦
          let grown = link_names-Grows s u i (s.entry i).dep_names is in
          elim (link_modules-only u t j x rest (rw (is, link_modules) at e) h) [
            | inr (there, named) ↦
                inr (
                  has-later j i rest there,
                  subst (λ ds. has x ds ≡ true) (grown.same_names j) named,
                )
            | inl linked ↦ elim (link_names-only s u i j x (s.entry i).dep_names is linked) [
              | inl old ↦ inl old
              | inr (at_i, named) ↦ inr (
                has-head j i rest at_i,
                subst (λ k. has x (s.entry k).dep_names ≡ true) (sym at_i) named,
              )
            ]
          ]
    ]

-- Each name of a dependency of a registered module is a registered module, and is linked both ways; and there is no
-- new link but for such a name.
pub record AreLinked (s t : System) : Type 0 where
  pub known :
      (i d : ℕ)
      → has i s.modules ≡ true
      → has d (s.entry i).dep_names ≡ true
      → has d s.modules ≡ true
  pub forth :
      (i d : ℕ)
      → has i s.modules ≡ true
      → has d (s.entry i).dep_names ≡ true
      → has d (t.entry i).dep_modules ≡ true
  pub back :
      (i d : ℕ)
      → has i s.modules ≡ true
      → has d (s.entry i).dep_names ≡ true
      → has i (t.entry d).dep_reverse ≡ true
  pub only :
      (i d : ℕ)
      → has d (t.entry i).dep_modules ≡ true
      → (has d (s.entry i).dep_modules ≡ true)
        ⊎ ((has i s.modules ≡ true) × (has d (s.entry i).dep_names ≡ true))

-- When initDependencies has no error on modules that are dead and linked both ways so far, every name of a
-- dependency of a registered module is that of a registered module, which is then one of the dependencies
-- of the module and has the module in its list of reverse dependencies; a module has no other new dependencies; and
-- the invariant of the module system holds.
pub init_dependencies-AreLinked :
    (s t : System) → IsFresh s → init_dependencies s ≡ some t → AreLinked s t × IsSafe t
unfolding init_dependencies
init_dependencies-AreLinked s t h e =
    let fresh = init_dependencies-IsFresh s t h e in
    (
      record {
        known = λ i d is named. (link_modules-all s t i d s.modules e is named).0;
        forth = λ i d is named. (link_modules-all s t i d s.modules e is named).1;
        back = λ i d is named. fresh.links i d (link_modules-all s t i d s.modules e is named).1;
        only = λ i d linked. link_modules-only s t i d s.modules e linked;
      },
      IsFresh-IsSafe t fresh,
    )
