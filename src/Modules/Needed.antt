-- ===== src/Modules/Needed.antt =====
-- modules/mgmt.go: what buildEnabledTree marks, against the definition of a needed module.
pub mod Sweep
pub mod Tree
pub mod Runs
use portbase.Prelude.{
  ℕ, zero, suc, ◌+◌, ◌≤◌, ◌<◌, ◌≡◌, ◌⊎◌, ◌↔◌, inl, inr, refl, sym, ◌∙◌, ap, List, [], ◌∷◌, Bool,
  true, false, ◌==◌, if◌then◌else◌, Bool-cases, All, arith, ==_iff,
}
use mathlib.Core.Bool.{false≢true}
use mathlib.Core.Path.{subst}
use portbase.Modules.{System, Module, write}
use portbase.Modules.Depend.{
  has, mark, unmark_all, mark_dependencies, mark_enabled, build_enabled_tree, count,
}

abbrev pub marked : System → ℕ → Bool
marked s i = (s.entry i).enabled_as_dependency

abbrev pub AllMarked : System → List ℕ → Type 0
AllMarked s l = All (λ d. marked s d ≡ true) l

abbrev pub AllIn : List ℕ → List ℕ → Type 0
AllIn modules l = All (λ d. has d modules ≡ true) l

pub if_elim {ℓ κ} :
    {A : Type ℓ} (P : A → Type κ) (b : Bool) (x y : A)
    → (b ≡ true → P x)
    → (b ≡ false → P y)
    → P (if b then x else y)
if_elim P true x y hx hy = hx refl
if_elim P false x y hx hy = hy refl

-- A mark changes the one flag.
pub marked-mark :
    (s : System) (d i : ℕ) (on : Bool)
    → marked (mark s d on) i ≡ (if i == d then on else marked s i)
unfolding mark
marked-mark s d i on = flag_of (i == d)
  where
    flag_of :
        (b : Bool)
        → (if b
            then record (s.entry d) { enabled_as_dependency = on }
            else s.entry i).enabled_as_dependency
          ≡ (if b then on else marked s i)
    flag_of true = refl
    flag_of false = refl

deps-mark :
    (s : System) (d i : ℕ) (on : Bool)
    → ((mark s d on).entry i).dep_modules ≡ (s.entry i).dep_modules
unfolding mark
deps-mark s d i on =
    if_elim (λ (m : Module). m.dep_modules ≡ (s.entry i).dep_modules) (i == d) _ (s.entry i)
      (λ e. rw ((==_iff i d).0 e) refl) (λ e. refl)

enabled-mark :
    (s : System) (d i : ℕ) (on : Bool) → ((mark s d on).entry i).enabled ≡ (s.entry i).enabled
unfolding mark
enabled-mark s d i on =
    if_elim (λ (m : Module). m.enabled ≡ (s.entry i).enabled) (i == d) _ (s.entry i)
      (λ e. rw ((==_iff i d).0 e) refl) (λ e. refl)

-- How many of the modules have no mark.
abbrev pub unmarked : System → List ℕ → ℕ
unmarked s [] = 0
unmarked s (i ∷ l) = (if marked s i then 0 else 1) + unmarked s l

abbrev pub MarksMore : System → System → Type 0
MarksMore s s' = (i : ℕ) → marked s i ≡ true → marked s' i ≡ true

pub unmarked-more : (s s' : System) (l : List ℕ) → MarksMore s s' → unmarked s' l ≤ unmarked s l
unmarked-more s s' [] more = omega arith
unmarked-more s s' (i ∷ l) more = ground (arith, more i, unmarked-more s s' l more)

mark-MarksMore : (s : System) (d : ℕ) → MarksMore s (mark s d true)
mark-MarksMore s d i e =
    marked-mark s d i true ∙ if_elim (λ b. b ≡ true) (i == d) true (marked s i) (λ h. refl) (λ h. e)

marked_itself : (s : System) (d : ℕ) → marked (mark s d true) d ≡ true
marked_itself s d =
    marked-mark s d d true
    ∙ if_elim (λ b. b ≡ true) (d == d) true (marked s d) (λ h. refl)
        (λ h. absurd (false≢true (sym h ∙ (==_iff d d).1 refl)))

-- A new mark on one of the modules leaves fewer without.
pub unmarked-mark :
    (s : System) (d : ℕ) (l : List ℕ)
    → has d l ≡ true
    → marked s d ≡ false
    → unmarked (mark s d true) l < unmarked s l
unmarked-mark s d [] h e = absurd (false≢true h)
unmarked-mark s d (i ∷ l) h e = elim (Bool-cases (d == i)) [
  | inl is ↦ ground (
    arith,
    (==_iff d i).0 is,
    marked_itself s d,
    unmarked-more s (mark s d true) l (mark-MarksMore s d),
  )
  | inr is ↦ ground (arith, mark-MarksMore s d i, unmarked-mark s d l (rw is at h) e)
]

module _ (modules : List ℕ) (deps : ℕ → List ℕ) (on : ℕ → Bool) where
  -- The dependencies of each module, and whether it is enabled.
  abbrev HasLinks : System → Type 0
  HasLinks s = (i : ℕ) → ((s.entry i).dep_modules ≡ deps i) × ((s.entry i).enabled ≡ on i)

  pub mark-HasLinks : (s : System) (d : ℕ) (flag : Bool) → HasLinks s → HasLinks (mark s d flag)
  mark-HasLinks s d flag h i = (deps-mark s d i flag ∙ (h i).0, enabled-mark s d i flag ∙ (h i).1)

  pub mark_dependencies-HasLinks :
      (depth : ℕ) (s : System) (l : List ℕ) → HasLinks s → HasLinks (mark_dependencies depth s l)
  unfolding mark_dependencies
  mark_dependencies-HasLinks zero s l h = h
  mark_dependencies-HasLinks (suc depth) s [] h = h
  mark_dependencies-HasLinks (suc depth) s (d ∷ l) h =
      if_elim HasLinks (marked s d) _ _ (λ e. mark_dependencies-HasLinks (suc depth) s l h)
        (λ e.
          mark_dependencies-HasLinks (suc depth)
            (mark_dependencies depth (mark s d true) (s.entry d).dep_modules) l
            (mark_dependencies-HasLinks depth (mark s d true) (s.entry d).dep_modules
              (mark-HasLinks s d true h)))

  -- A run of markDependencies on `l`: marks are kept, `l` is marked, and whatever has a new mark has all
  -- its dependencies marked.
  pub record Run (s s' : System) (l : List ℕ) : Type 0 where
    pub more : MarksMore s s'
    pub all : AllMarked s' l
    pub closed : (i : ℕ) → marked s' i ≡ true → (marked s i ≡ true) ⊎ AllMarked s' (deps i)

  pub AllMarked-more :
      (s s' : System) (l : List ℕ) → MarksMore s s' → AllMarked s l → AllMarked s' l
  AllMarked-more s s' [] more h = tt
  AllMarked-more s s' (d ∷ l) more (here, h) = (more d here, AllMarked-more s s' l more h)

  -- What was marked before is known; behind a new mark of `d` come the runs on its dependencies and on the rest.
  newly_marked :
      (s below s' : System) (d : ℕ) (l : List ℕ)
      → Run (mark s d true) below (deps d)
      → Run below s' l
      → Run s s' (d ∷ l)
  newly_marked s below s' d l first rest = record {
    more = λ i e. rest.more i (first.more i (mark-MarksMore s d i e));
    all = (rest.more d (first.more d (marked_itself s d)), rest.all);
    closed = λ i e. elim (rest.closed i e) [
      | inr after ↦ inr after
      | inl before ↦ elim (first.closed i before) [
        | inr after ↦ inr (AllMarked-more below s' (deps i) rest.more after)
        | inl at_first ↦ elim (Bool-cases (i == d)) [
          | inl is ↦
              inr (rw ((==_iff i d).0 is) (AllMarked-more below s' (deps d) rest.more first.all))
          | inr is ↦ inl (rw is at (sym (marked-mark s d i true) ∙ at_first))
        ]
      ]
    ];
  }

  pub mark_dependencies-Run :
      (depth : ℕ) (s : System) (l : List ℕ)
      → ((i : ℕ) → has i modules ≡ true → AllIn modules (deps i))
      → HasLinks s
      → unmarked s modules < depth
      → AllIn modules l
      → Run s (mark_dependencies depth s l) l
  unfolding mark_dependencies
  mark_dependencies-Run zero s l known links enough inside = absurd (omega (arith, enough))
  mark_dependencies-Run (suc depth) s [] known links enough inside = record {
    more = λ i e. e;
    all = tt;
    closed = λ i e. inl e;
  }
  mark_dependencies-Run (suc depth) s (d ∷ l) known links enough (here, inside) =
      if_elim (λ s'. Run s s' (d ∷ l)) (marked s d) _ _
        (λ skip.
          let rest = mark_dependencies-Run (suc depth) s l known links enough inside in
          record { more = rest.more; all = (rest.more d skip, rest.all); closed = rest.closed })
        (λ new.
          let s1 = mark s d true in
          let below = mark_dependencies depth s1 (s.entry d).dep_modules in
          let links1 = mark-HasLinks s d true links in
          let fewer = unmarked-mark s d modules here new in
          let first =
            mark_dependencies-Run depth s1 (s.entry d).dep_modules known links1
              (omega (arith, enough, fewer))
              (subst (AllIn modules) (sym (links d).0) (known d here)) in
          newly_marked s below _ d l (subst (Run s1 below) (links d).0 first) (
            mark_dependencies-Run (suc depth) below l known
              (mark_dependencies-HasLinks depth s1 (s.entry d).dep_modules links1)
              (omega (arith, enough, fewer, unmarked-more s1 below modules first.more)) inside))

  -- New marks only go to what satisfies a property `P` that dependencies inherit.
  pub mark_dependencies-only :
      (P Q : ℕ → Type 0) (depth : ℕ) (s : System) (l : List ℕ)
      → ((i : ℕ) → P i → Q i)
      → ((i : ℕ) → P i → All P (deps i))
      → HasLinks s
      → ((i : ℕ) → marked s i ≡ true → Q i)
      → All P l
      → (i : ℕ) → marked (mark_dependencies depth s l) i ≡ true
      → Q i
  unfolding mark_dependencies
  mark_dependencies-only P Q zero s l incl inherits links before ps = before
  mark_dependencies-only P Q (suc depth) s [] incl inherits links before ps = before
  mark_dependencies-only P Q (suc depth) s (d ∷ l) incl inherits links before (p, ps) =
      if_elim (λ s'. (i : ℕ) → marked s' i ≡ true → Q i) (marked s d) _ _
        (λ skip. mark_dependencies-only P Q (suc depth) s l incl inherits links before ps)
        (λ new.
          let links1 = mark-HasLinks s d true links in
          mark_dependencies-only P Q (suc depth)
            (mark_dependencies depth (mark s d true) (s.entry d).dep_modules) l incl inherits
            (mark_dependencies-HasLinks depth (mark s d true) (s.entry d).dep_modules links1)
            (mark_dependencies-only P Q depth (mark s d true) (s.entry d).dep_modules incl inherits
              links1 (with_mark s d p before) (subst (All P) (sym (links d).0) (inherits d p)))
            ps)
    where
      with_mark :
          (s : System) (d : ℕ)
          → P d
          → ((i : ℕ) → marked s i ≡ true → Q i)
          → (i : ℕ) → marked (mark s d true) i ≡ true
          → Q i
      with_mark s d p before i e = elim (Bool-cases (i == d)) [
        | inl is ↦ subst Q (sym ((==_iff i d).0 is)) (incl d p)
        | inr is ↦ before i (rw is at (sym (marked-mark s d i true) ∙ e))
      ]
