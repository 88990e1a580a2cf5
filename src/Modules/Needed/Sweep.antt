-- ===== src/Modules/Needed/Sweep.antt =====
-- modules/mgmt.go: the reset of the marks, and the loop over the modules.
use portbase.Prelude.{
  ℕ, ◌≤◌, ◌<◌, ◌≡◌, ◌⊎◌, inl, inr, refl, sym, ◌∙◌, ap, List, [], ◌∷◌, Bool, true, false, ◌==◌,
  if◌then◌else◌, All, arith, ==_iff, if_inv,
}
use mathlib.Core.Bool.{false≢true}
use mathlib.Core.Path.{subst}
use portbase.Modules.{System}
use portbase.Modules.Depend.{has, mark, unmark_all, mark_dependencies, mark_enabled, count}
use portbase.Modules.Needed.{
  marked, AllMarked, AllIn, if_elim, marked-mark, unmarked, unmarked-more, MarksMore, HasLinks,
  mark-HasLinks, mark_dependencies-HasLinks, AllMarked-more, mark_dependencies-Run,
  mark_dependencies-only,
}

-- A module is needed if an enabled module depends on it, or a needed one.
pub data Needed (s : System) : ℕ → Type 0 where
  by_enabled :
      (i d : ℕ)
      → has i s.modules ≡ true
      → (s.entry i).enabled ≡ true
      → has d (s.entry i).dep_modules ≡ true
      → Needed s d
  by_needed : (i d : ℕ) → Needed s i → has d (s.entry i).dep_modules ≡ true → Needed s d

-- Every dependency is a registered module, as initDependencies leaves it.
abbrev pub IsClosed : System → Type 0
IsClosed s = (i : ℕ) → has i s.modules ≡ true → AllIn s.modules (s.entry i).dep_modules

pub All-has {κ} : (P : ℕ → Type κ) (d : ℕ) (l : List ℕ) → All P l → has d l ≡ true → P d
All-has P d [] h e = absurd (false≢true e)
All-has P d (x ∷ l) (here, h) e = elim (if_inv (d == x) e) [
  | inl (is, _) ↦ subst P (sym ((==_iff d x).0 is)) here
  | inr (_, there) ↦ All-has P d l h there
]

pub has-All {κ} : (P : ℕ → Type κ) (l : List ℕ) → ((d : ℕ) → has d l ≡ true → P d) → All P l
has-All P [] h = tt
has-All P (x ∷ l) h = (
  h x (
      if_elim (λ b. b ≡ true) (x == x) true (has x l) (λ e. refl)
        (λ e. absurd (false≢true (sym e ∙ (==_iff x x).1 refl)))),
  has-All P l (λ d e. h d (if_elim (λ b. b ≡ true) (d == x) true (has d l) (λ e'. refl) (λ e'. e))),
)

pub unmarked-count : (s : System) (l : List ℕ) → unmarked s l ≤ count l
unmarked-count s [] = omega arith
unmarked-count s (i ∷ l) = ground (arith, unmarked-count s l)

-- The reset.
stays_unmarked :
    (s : System) (l : List ℕ) (i : ℕ) → marked s i ≡ false → marked (unmark_all s l) i ≡ false
unfolding unmark_all
stays_unmarked s [] i e = e
stays_unmarked s (j ∷ l) i e = stays_unmarked (mark s j false) l i (
    marked-mark s j i false
    ∙ if_elim (λ b. b ≡ false) (i == j) false (marked s i) (λ h. refl) (λ h. e))

pub unmark_all-marked :
    (s : System) (l : List ℕ) (i : ℕ) → has i l ≡ true → marked (unmark_all s l) i ≡ false
unfolding unmark_all
unmark_all-marked s [] i e = absurd (false≢true e)
unmark_all-marked s (j ∷ l) i e = elim (if_inv (i == j) e) [
  | inl (is, _) ↦
      stays_unmarked (mark s j false) l i
        (marked-mark s j i false ∙ ap (λ b. if b then false else marked s i) is)
  | inr (_, there) ↦ unmark_all-marked (mark s j false) l i there
]

module _ (modules : List ℕ) (deps : ℕ → List ℕ) (on : ℕ → Bool) where
  pub unmark_all-HasLinks :
      (s : System) (l : List ℕ)
      → HasLinks modules deps on s
      → HasLinks modules deps on (unmark_all s l)
  unfolding unmark_all
  unmark_all-HasLinks s [] h = h
  unmark_all-HasLinks s (j ∷ l) h =
      unmark_all-HasLinks (mark s j false) l (mark-HasLinks modules deps on s j false h)

  -- A run of the loop over the modules in `l`.
  pub record Sweep (s s' : System) (l : List ℕ) : Type 0 where
    pub more : MarksMore s s'
    pub all : All (λ i. on i ≡ true → AllMarked s' (deps i)) l
    pub closed : (i : ℕ) → marked s' i ≡ true → (marked s i ≡ true) ⊎ AllMarked s' (deps i)

  -- One module of the loop: a run where it is enabled.
  one_module :
      (s s1 s' : System) (i : ℕ) (l : List ℕ)
      → MarksMore s s1
      → (on i ≡ true → AllMarked s1 (deps i))
      → ((j : ℕ) → marked s1 j ≡ true → (marked s j ≡ true) ⊎ AllMarked s1 (deps j))
      → Sweep s1 s' l
      → Sweep s s' (i ∷ l)
  one_module s s1 s' i l more all closed rest = record {
    more = λ j e. rest.more j (more j e);
    all = (λ e. AllMarked-more modules deps on s1 s' (deps i) rest.more (all e), rest.all);
    closed = λ j e. elim (rest.closed j e) [
      | inr after ↦ inr after
      | inl before ↦ elim (closed j before) [
        | inr after ↦ inr (AllMarked-more modules deps on s1 s' (deps j) rest.more after)
        | inl at_first ↦ inl at_first
      ]
    ];
  }

  pub mark_enabled-Sweep :
      (depth : ℕ) (s : System) (l : List ℕ)
      → ((i : ℕ) → has i modules ≡ true → AllIn modules (deps i))
      → HasLinks modules deps on s
      → unmarked s modules < depth
      → AllIn modules l
      → Sweep s (mark_enabled depth s l) l
  unfolding mark_enabled
  mark_enabled-Sweep depth s [] known links enough inside = record {
    more = λ i e. e;
    all = tt;
    closed = λ i e. inl e;
  }
  mark_enabled-Sweep depth s (i ∷ l) known links enough (here, inside) =
      if_elim (λ s1. Sweep s (mark_enabled depth s1 l) (i ∷ l)) (s.entry i).enabled _ s
        (λ enabled.
          let s1 = mark_dependencies depth s (s.entry i).dep_modules in
          let run =
            mark_dependencies-Run modules deps on depth s (s.entry i).dep_modules known links enough
              (subst (AllIn modules) (sym (links i).0) (known i here)) in
          one_module s s1 _ i l run.more (λ e. subst (AllMarked s1) (links i).0 run.all) run.closed
            (mark_enabled-Sweep depth s1 l known
              (mark_dependencies-HasLinks modules deps on depth s (s.entry i).dep_modules links)
              (omega (arith, enough, unmarked-more s s1 modules run.more)) inside))
        (λ disabled.
          one_module s s _ i l (λ j e. e)
            (λ e. absurd (false≢true (sym disabled ∙ ((links i).1 ∙ e)))) (λ j e. inl e)
            (mark_enabled-Sweep depth s l known links enough inside))

  pub mark_enabled-only :
      (P Q : ℕ → Type 0) (depth : ℕ) (s : System) (l : List ℕ)
      → ((i : ℕ) → P i → Q i)
      → ((i : ℕ) → P i → All P (deps i))
      → All (λ i. on i ≡ true → All P (deps i)) l
      → HasLinks modules deps on s
      → ((i : ℕ) → marked s i ≡ true → Q i)
      → (i : ℕ) → marked (mark_enabled depth s l) i ≡ true
      → Q i
  unfolding mark_enabled
  mark_enabled-only P Q depth s [] incl inherits starts links before = before
  mark_enabled-only P Q depth s (j ∷ l) incl inherits (start, starts) links before =
      if_elim (λ s1. (i : ℕ) → marked (mark_enabled depth s1 l) i ≡ true → Q i) (s.entry j).enabled
        _ s
        (λ enabled.
          let s1 = mark_dependencies depth s (s.entry j).dep_modules in
          mark_enabled-only P Q depth s1 l incl inherits starts
            (mark_dependencies-HasLinks modules deps on depth s (s.entry j).dep_modules links)
            (mark_dependencies-only modules deps on P Q depth s (s.entry j).dep_modules incl
              inherits links before
              (subst (All P) (sym (links j).0) (start (sym (links j).1 ∙ enabled)))))
        (λ disabled. mark_enabled-only P Q depth s l incl inherits starts links before)
