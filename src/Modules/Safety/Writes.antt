-- ===== src/Modules/Safety/Writes.antt =====
-- The invariant of the module system, and which writes to a module keep it.
use mathlib.Core.Bool.{false≢true}
use portbase.Prelude.{
  ℕ, ◌≤◌, ◌<◌, ◌≡◌, ◌≢◌, refl, List, [], ◌∷◌, true, ltb, ◌==◌, arith, ==_iff, ==-≢, ltb→le,
  Bool-cases, inl, inr, ◌∙◌,
}
use portbase.Modules.{System, Module, write, all_from, none_above}
use portbase.Modules.Depend.{has}

-- Dependencies are linked both ways; a module that is starting, online or stopping has all its
-- dependencies online; one that is prepared, or is being prepared, has them prepared.
pub record IsSafe (s : System) : Type 0 where
  pub linked :
      (i d : ℕ) → has d (s.entry i).dep_modules ≡ true → has i (s.entry d).dep_reverse ≡ true
  pub running :
      (i d : ℕ)
      → has d (s.entry i).dep_modules ≡ true
      → 2 < (s.entry i).status
      → 5 ≤ (s.entry d).status
  pub prepared :
      (i d : ℕ)
      → has d (s.entry i).dep_modules ≡ true
      → 0 < (s.entry i).status
      → 2 ≤ (s.entry d).status

-- A step that leaves statuses, links and the end of stopping alone.
pub record Same (s t : System) : Type 0 where
  pub status : (j : ℕ) → (t.entry j).status ≡ (s.entry j).status
  pub deps : (j : ℕ) → (t.entry j).dep_modules ≡ (s.entry j).dep_modules
  pub reverse_deps : (j : ℕ) → (t.entry j).dep_reverse ≡ (s.entry j).dep_reverse
  pub ready : (j : ℕ) → (t.entry j).start_complete ≡ (s.entry j).start_complete

pub Same-refl : (s : System) → Same s s
Same-refl s = record {
  status = λ j. refl;
  deps = λ j. refl;
  reverse_deps = λ j. refl;
  ready = λ j. refl;
}

pub Same-trans : {s t u : System} → Same s t → Same t u → Same s u
Same-trans p q = record {
  status = λ j. q.status j ∙ p.status j;
  deps = λ j. q.deps j ∙ p.deps j;
  reverse_deps = λ j. q.reverse_deps j ∙ p.reverse_deps j;
  ready = λ j. q.ready j ∙ p.ready j;
}

Same-IsSafe_by :
    {s t : System}
    → ((j : ℕ) → (t.entry j).status ≡ (s.entry j).status)
    → ((j : ℕ) → (t.entry j).dep_modules ≡ (s.entry j).dep_modules)
    → ((j : ℕ) → (t.entry j).dep_reverse ≡ (s.entry j).dep_reverse)
    → IsSafe s
    → IsSafe t
Same-IsSafe_by status deps reverse h = record {
  linked = λ i d m. rw (reverse d) (h.linked i d (rw (deps i) at m));
  running = λ i d m r. rw (status d) (h.running i d (rw (deps i) at m) (rw (status i) at r));
  prepared = λ i d m r. rw (status d) (h.prepared i d (rw (deps i) at m) (rw (status i) at r));
}

pub Same-IsSafe : {s t : System} → Same s t → IsSafe s → IsSafe t
Same-IsSafe p h = Same-IsSafe_by p.status p.deps p.reverse_deps h

-- A field that a write does not change.
pub write-field :
    {A : Type 0} (f : Module → A) (s : System) (i : ℕ) (m : Module) (j : ℕ)
    → f m ≡ f (s.entry i)
    → f ((write s i m).entry j) ≡ f (s.entry j)
write-field f s i m j e = elim (Bool-cases (j == i)) [
  | inl is ↦ rw is (rw ((==_iff j i).0 is) e)
  | inr other ↦ rw other refl
]

-- A write of a module with the status and the links that it had.
pub write-IsSafe_kept :
    (s : System) (i : ℕ) (m : Module)
    → (m.status ≡ (s.entry i).status)
      × (m.dep_modules ≡ (s.entry i).dep_modules)
      × (m.dep_reverse ≡ (s.entry i).dep_reverse)
    → IsSafe s
    → IsSafe (write s i m)
write-IsSafe_kept s i m (same, deps, reverse) h =
    Same-IsSafe_by (λ j. write-field (λ k. k.status) s i m j same)
      (λ j. write-field (λ k. k.dep_modules) s i m j deps)
      (λ j. write-field (λ k. k.dep_reverse) s i m j reverse) h

-- A module that agrees with another one in those fields.
pub record Alike (m m' : Module) : Type 0 where
  pub status : m'.status ≡ m.status
  pub deps : m'.dep_modules ≡ m.dep_modules
  pub reverse_deps : m'.dep_reverse ≡ m.dep_reverse
  pub ready : m'.start_complete ≡ m.start_complete

pub Same-write : (s : System) (i : ℕ) (m : Module) → Alike (s.entry i) m → Same s (write s i m)
Same-write s i m a = record {
  status = λ j. write-field (λ k. k.status) s i m j a.status;
  deps = λ j. write-field (λ k. k.dep_modules) s i m j a.deps;
  reverse_deps = λ j. write-field (λ k. k.dep_reverse) s i m j a.reverse_deps;
  ready = λ j. write-field (λ k. k.start_complete) s i m j a.ready;
}

-- What a loop over dependencies tells of each.
pub all_from-has :
    (s : System) (bound d : ℕ) (ds : List ℕ)
    → all_from s bound ds ≡ true
    → has d ds ≡ true
    → bound ≤ (s.entry d).status
all_from-has s bound d [] a h = ground arith
all_from-has s bound d (x ∷ ds) a h = elim (Bool-cases (ltb (s.entry x).status bound)) [
  | inl low ↦ absurd (false≢true (rw low at a))
  | inr high ↦ elim (Bool-cases (d == x)) [
    | inl is ↦ rw ((==_iff d x).0 is) (ltb→le (s.entry x).status bound high)
    | inr other ↦ all_from-has s bound d ds (rw high at a) (rw other at h)
  ]
]

pub none_above-has :
    (s : System) (bound d : ℕ) (ds : List ℕ)
    → none_above s bound ds ≡ true
    → has d ds ≡ true
    → (s.entry d).status ≤ bound
none_above-has s bound d [] a h = ground arith
none_above-has s bound d (x ∷ ds) a h = elim (Bool-cases (ltb bound (s.entry x).status)) [
  | inl high ↦ absurd (false≢true (rw high at a))
  | inr low ↦ elim (Bool-cases (d == x)) [
    | inl is ↦ rw ((==_iff d x).0 is) (ltb→le bound (s.entry x).status low)
    | inr other ↦ none_above-has s bound d ds (rw low at a) (rw other at h)
  ]
]

-- A write to a module that keeps its links. Its dependencies are other modules, in a status that the
-- new one needs; the new status is one that the modules depending on it need.
module _ (s : System) (h : IsSafe s) (i : ℕ) (m : Module)
    (same_deps : m.dep_modules ≡ (s.entry i).dep_modules)
    (same_reverse : m.dep_reverse ≡ (s.entry i).dep_reverse) where
  write-deps : (j : ℕ) → ((write s i m).entry j).dep_modules ≡ (s.entry j).dep_modules
  write-deps j = elim (Bool-cases (j == i)) [
    | inl is ↦ rw is (rw ((==_iff j i).0 is) same_deps)
    | inr other ↦ rw other
  ]

  write-reverse : (j : ℕ) → ((write s i m).entry j).dep_reverse ≡ (s.entry j).dep_reverse
  write-reverse j = elim (Bool-cases (j == i)) [
    | inl is ↦ rw is (rw ((==_iff j i).0 is) same_reverse)
    | inr other ↦ rw other
  ]

  -- One of the two status rules, as seen from the module and from those that depend on it.
  write-rule :
      (low high : ℕ)
      → ((j d : ℕ)
          → has d (s.entry j).dep_modules ≡ true
          → low < (s.entry j).status
          → high ≤ (s.entry d).status)
      → ((d : ℕ)
          → has d (s.entry i).dep_modules ≡ true
          → low < m.status
          → (d ≢ i) × (high ≤ (s.entry d).status))
      → ((j : ℕ)
          → has i (s.entry j).dep_modules ≡ true
          → low < (s.entry j).status
          → high ≤ m.status)
      → (j d : ℕ) → has d (s.entry j).dep_modules ≡ true
      → low < ((write s i m).entry j).status
      → high ≤ ((write s i m).entry d).status
  write-rule low high old own others j d e r = elim (Bool-cases (j == i)) [
    | inl is ↦
        let found = own d (rw ((==_iff j i).0 is) at e) (rw is at r) in
        rw (==-≢ d i found.0) found.1
    | inr other ↦ elim (Bool-cases (d == i)) [
      | inl self ↦ rw self (others j (rw ((==_iff d i).0 self) at e) (rw other at r))
      | inr off ↦ rw off (old j d e (rw other at r))
    ]
  ]

  pub write-IsSafe :
      ((d : ℕ)
        → has d (s.entry i).dep_modules ≡ true
        → 2 < m.status
        → (d ≢ i) × (5 ≤ (s.entry d).status))
      → ((j : ℕ) → has i (s.entry j).dep_modules ≡ true → 2 < (s.entry j).status → 5 ≤ m.status)
      → ((d : ℕ)
          → has d (s.entry i).dep_modules ≡ true
          → 0 < m.status
          → (d ≢ i) × (2 ≤ (s.entry d).status))
      → ((j : ℕ) → has i (s.entry j).dep_modules ≡ true → 0 < (s.entry j).status → 2 ≤ m.status)
      → IsSafe (write s i m)
  write-IsSafe own others own_prep others_prep = record {
    linked = λ j d e. rw (write-reverse d) (h.linked j d (rw (write-deps j) at e));
    running = λ j d e r. write-rule 2 5 h.running own others j d (rw (write-deps j) at e) r;
    prepared =
        λ j d e r. write-rule 0 2 h.prepared own_prep others_prep j d (rw (write-deps j) at e) r;
  }
