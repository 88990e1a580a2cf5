-- ===== src/Modules/Safety/Linked.antt =====
-- What initDependencies establishes on modules that were only registered.
use mathlib.Core.Option.{some-injective, none-ne-some}
use portbase.Prelude.{
  ℕ, ◌≡◌, ◌⊎◌, ◌∙◌, refl, sym, List, [], ◌∷◌, ◌++◌, true, some, ◌==◌, arith, ==_iff, Bool-cases,
  Option-cases, inl, inr,
}
use portbase.Modules.{System}
use portbase.Modules.Depend.{
  has, add_dependency, add_reverse, link, link_names, link_modules, init_dependencies,
}
use portbase.Modules.Safety.Writes.{IsSafe, write-field}

-- Linked so far, and every module dead.
pub record IsFresh (s : System) : Type 0 where
  pub dead : (i : ℕ) → (s.entry i).status ≡ 0
  pub links :
      (i d : ℕ) → has d (s.entry i).dep_modules ≡ true → has i (s.entry d).dep_reverse ≡ true

pub IsFresh-IsSafe : (s : System) → IsFresh s → IsSafe s
IsFresh-IsSafe s h = record {
  linked = h.links;
  running = λ i d e r. let down = h.dead i in omega arith;
  prepared = λ i d e r. let down = h.dead i in omega arith;
}

pub has-append_keeps : (x y : ℕ) (xs : List ℕ) → has x xs ≡ true → has x (xs ++ y ∷ []) ≡ true
has-append_keeps x y [] h = ground arith
has-append_keeps x y (z ∷ xs) h = elim (Bool-cases (x == z)) [
  | inl is ↦ rw is refl
  | inr other ↦ rw other (has-append_keeps x y xs (rw other at h))
]

pub has-append_last : (x : ℕ) (xs : List ℕ) → has x (xs ++ x ∷ []) ≡ true
has-append_last x [] = rw ((==_iff x x).1 refl) refl
has-append_last x (z ∷ xs) = elim (Bool-cases (x == z)) [
  | inl is ↦ rw is refl
  | inr other ↦ rw other (has-append_last x xs)
]

has-append_inv : (x y : ℕ) (xs : List ℕ) → has x (xs ++ y ∷ []) ≡ true → (has x xs ≡ true) ⊎ (x ≡ y)
has-append_inv x y [] h = elim (Bool-cases (x == y)) [
  | inl is ↦ inr ((==_iff x y).0 is)
  | inr other ↦ inl (rw other at h)
]
has-append_inv x y (z ∷ xs) h = elim (Bool-cases (x == z)) [
  | inl is ↦ inl (rw is refl)
  | inr other ↦ rw other (has-append_inv x y xs (rw other at h))
]

module _ (s : System) (i d : ℕ) where
  add_dependency-status : (j : ℕ) → ((add_dependency s i d).entry j).status ≡ (s.entry j).status
  unfolding add_dependency
  add_dependency-status j =
      write-field (λ m. m.status) s i
        (record (s.entry i) { dep_modules = (s.entry i).dep_modules ++ d ∷ [] }) j refl

  add_dependency-reverse :
      (j : ℕ) → ((add_dependency s i d).entry j).dep_reverse ≡ (s.entry j).dep_reverse
  unfolding add_dependency
  add_dependency-reverse j =
      write-field (λ m. m.dep_reverse) s i
        (record (s.entry i) { dep_modules = (s.entry i).dep_modules ++ d ∷ [] }) j refl

  pub add_dependency-deps_inv :
      (j x : ℕ)
      → has x ((add_dependency s i d).entry j).dep_modules ≡ true
      → (has x (s.entry j).dep_modules ≡ true) ⊎ ((j ≡ i) × (x ≡ d))
  unfolding add_dependency
  add_dependency-deps_inv j x e = elim (Bool-cases (j == i)) [
    | inl is ↦ elim (has-append_inv x d (s.entry i).dep_modules (rw is at e)) [
      | inl old ↦ inl (rw ((==_iff j i).0 is) old)
      | inr last ↦ inr ((==_iff j i).0 is, last)
    ]
    | inr other ↦ inl (rw other at e)
  ]

  add_reverse-status : (j : ℕ) → ((add_reverse s i d).entry j).status ≡ (s.entry j).status
  unfolding add_reverse
  add_reverse-status j =
      write-field (λ m. m.status) s d
        (record (s.entry d) { dep_reverse = (s.entry d).dep_reverse ++ i ∷ [] }) j refl

  pub add_reverse-deps :
      (j : ℕ) → ((add_reverse s i d).entry j).dep_modules ≡ (s.entry j).dep_modules
  unfolding add_reverse
  add_reverse-deps j =
      write-field (λ m. m.dep_modules) s d
        (record (s.entry d) { dep_reverse = (s.entry d).dep_reverse ++ i ∷ [] }) j refl

  add_reverse-keeps :
      (j x : ℕ)
      → has x (s.entry j).dep_reverse ≡ true
      → has x ((add_reverse s i d).entry j).dep_reverse ≡ true
  unfolding add_reverse
  add_reverse-keeps j x e = elim (Bool-cases (j == d)) [
    | inl is ↦ rw is (has-append_keeps x i (s.entry d).dep_reverse (rw ((==_iff j d).0 is) at e))
    | inr other ↦ rw other e
  ]

  add_reverse-adds : has i ((add_reverse s i d).entry d).dep_reverse ≡ true
  unfolding add_reverse
  add_reverse-adds = rw ((==_iff d d).1 refl) (has-append_last i (s.entry d).dep_reverse)

link-IsFresh : (s : System) (i d : ℕ) → IsFresh s → IsFresh (link s i d)
unfolding link
link-IsFresh s i d h =
    let s' = add_dependency s i d in
    record {
      dead = λ j. add_reverse-status s' i d j ∙ add_dependency-status s i d j ∙ h.dead j;
      links = λ j x e.
          elim (add_dependency-deps_inv s i d j x (rw (add_reverse-deps s' i d j) at e)) [
            | inl old ↦
                add_reverse-keeps s' i d x j (rw (add_dependency-reverse s i d x) (h.links j x old))
            | inr new ↦ rw new.0 (rw new.1 (add_reverse-adds s' i d))
          ];
    }

link_names-IsFresh :
    (s t : System) (i : ℕ) (ds : List ℕ) → link_names s i ds ≡ some t → IsFresh s → IsFresh t
unfolding link_names
link_names-IsFresh s t i [] e h = rw (sym (some-injective _ _ e)) h
link_names-IsFresh s t i (d ∷ ds) e h = elim (Bool-cases (has d s.modules)) [
  | inl is ↦ link_names-IsFresh (link s i d) t i ds (rw is at e) (link-IsFresh s i d h)
  | inr other ↦ absurd (none-ne-some _ (rw other at e))
]

link_modules-IsFresh :
    (s t : System) (l : List ℕ) → link_modules s l ≡ some t → IsFresh s → IsFresh t
unfolding link_modules
link_modules-IsFresh s t [] e h = rw (sym (some-injective _ _ e)) h
link_modules-IsFresh s t (i ∷ rest) e h =
    elim (Option-cases (link_names s i (s.entry i).dep_names)) [
      | inl missing ↦ absurd (none-ne-some _ (rw (missing, link_modules) at e))
      | inr found ↦
          link_modules-IsFresh found.0 t rest (rw (found.1, link_modules) at e)
            (link_names-IsFresh s found.0 i (s.entry i).dep_names found.1 h)
    ]

pub init_dependencies-IsFresh :
    (s t : System) → IsFresh s → init_dependencies s ≡ some t → IsFresh t
unfolding init_dependencies
init_dependencies-IsFresh s t h e = link_modules-IsFresh s t s.modules e h
