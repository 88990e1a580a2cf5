-- ===== src/Modules/Needed/Runs.antt =====
-- modules/mgmt.go: runs of buildEnabledTree and markDependencies as they are called, without a bound.
use portbase.Prelude.{
  ℕ, zero, suc, ◌<◌, ◌≡◌, refl, sym, ◌∙◌, List, [], ◌∷◌, Bool, true, false, arith,
}
use mathlib.Core.Bool.{false≢true}
use mathlib.Core.Path.{subst}
use portbase.Modules.{System}
use portbase.Modules.Depend.{
  has, mark, unmark_all, mark_dependencies, mark_enabled, build_enabled_tree, count,
}
use portbase.Modules.Needed.{
  marked, AllIn, if_elim, unmarked, unmarked-more, unmarked-mark, HasLinks, mark-HasLinks,
  mark_dependencies-HasLinks, mark_dependencies-Run,
}
use portbase.Modules.Needed.Sweep.{IsClosed, has-All, unmarked-count, unmark_all-HasLinks}

-- A finite run of the loop of markDependencies over `l`: a marked module is skipped, any other is marked and
-- followed by the run of its own call. There is no bound, and a recursion that does not end has no run.
pub data Marks : System → List ℕ → System → Type 0 where
  all_done : {s : System} → Marks s [] s
  skips : {s t : System} {d : ℕ} {l : List ℕ} → marked s d ≡ true → Marks s l t → Marks s (d ∷ l) t
  follows :
      {s below t : System} {d : ℕ} {l : List ℕ}
      → marked s d ≡ false
      → Marks (mark s d true) (s.entry d).dep_modules below
      → Marks below l t
      → Marks s (d ∷ l) t

-- A finite run of the loop of buildEnabledTree.
pub data Builds : System → List ℕ → System → Type 0 where
  built : {s : System} → Builds s [] s
  enabled :
      {s s1 t : System} {i : ℕ} {l : List ℕ}
      → (s.entry i).enabled ≡ true
      → Marks s (s.entry i).dep_modules s1
      → Builds s1 l t
      → Builds s (i ∷ l) t
  disabled :
      {s t : System} {i : ℕ} {l : List ℕ}
      → (s.entry i).enabled ≡ false
      → Builds s l t
      → Builds s (i ∷ l) t

Marks-unique : {s t u : System} {l : List ℕ} → Marks s l t → Marks s l u → t ≡ u
Marks-unique all_done all_done = refl
Marks-unique (skips e r) (skips e' r') = Marks-unique r r'
Marks-unique (skips e r) (follows e' a' r') = absurd (false≢true (sym e' ∙ e))
Marks-unique (follows e a r) (skips e' r') = absurd (false≢true (sym e ∙ e'))
Marks-unique {u = u} {l = d ∷ l} (follows e a r) (follows e' a' r') =
    Marks-unique r (subst (λ x. Marks x l u) (sym (Marks-unique a a')) r')

Builds-unique : {s t u : System} {l : List ℕ} → Builds s l t → Builds s l u → t ≡ u
Builds-unique built built = refl
Builds-unique (disabled e r) (disabled e' r') = Builds-unique r r'
Builds-unique (disabled e r) (enabled e' a' r') = absurd (false≢true (sym e ∙ e'))
Builds-unique (enabled e a r) (disabled e' r') = absurd (false≢true (sym e' ∙ e))
Builds-unique {u = u} {l = i ∷ l} (enabled e a r) (enabled e' a' r') =
    Builds-unique r (subst (λ x. Builds x l u) (sym (Marks-unique a a')) r')

module _ (modules : List ℕ) (deps : ℕ → List ℕ) (on : ℕ → Bool) where
  mark_dependencies-Marks :
      (depth : ℕ) (s : System) (l : List ℕ)
      → ((i : ℕ) → has i modules ≡ true → AllIn modules (deps i))
      → HasLinks modules deps on s
      → unmarked s modules < depth
      → AllIn modules l
      → Marks s l (mark_dependencies depth s l)
  unfolding mark_dependencies
  mark_dependencies-Marks zero s l known links enough inside = absurd (omega (arith, enough))
  mark_dependencies-Marks (suc depth) s [] known links enough inside = all_done
  mark_dependencies-Marks (suc depth) s (d ∷ l) known links enough (here, inside) =
      if_elim (Marks s (d ∷ l)) (marked s d) _ _
        (λ skip. skips skip (mark_dependencies-Marks (suc depth) s l known links enough inside))
        (λ new.
          let s1 = mark s d true in
          let below = mark_dependencies depth s1 (s.entry d).dep_modules in
          let links1 = mark-HasLinks modules deps on s d true links in
          let fewer = unmarked-mark s d modules here new in
          let enough1 : unmarked s1 modules < depth = omega (arith, enough, fewer) in
          let known1 = subst (AllIn modules) (sym (links d).0) (known d here) in
          let first =
            mark_dependencies-Run modules deps on depth s1 (s.entry d).dep_modules known links1
              enough1 known1 in
          follows new
            (mark_dependencies-Marks depth s1 (s.entry d).dep_modules known links1 enough1 known1)
            (mark_dependencies-Marks (suc depth) below l known
              (mark_dependencies-HasLinks modules deps on depth s1 (s.entry d).dep_modules links1)
              (omega (arith, enough, fewer, unmarked-more s1 below modules first.more)) inside))

  mark_enabled-Builds :
      (depth : ℕ) (s : System) (l : List ℕ)
      → ((i : ℕ) → has i modules ≡ true → AllIn modules (deps i))
      → HasLinks modules deps on s
      → unmarked s modules < depth
      → AllIn modules l
      → Builds s l (mark_enabled depth s l)
  unfolding mark_enabled
  mark_enabled-Builds depth s [] known links enough inside = built
  mark_enabled-Builds depth s (i ∷ l) known links enough (here, inside) =
      if_elim (λ s1. Builds s (i ∷ l) (mark_enabled depth s1 l)) (s.entry i).enabled _ s
        (λ is.
          let s1 = mark_dependencies depth s (s.entry i).dep_modules in
          let known1 = subst (AllIn modules) (sym (links i).0) (known i here) in
          let run =
            mark_dependencies-Run modules deps on depth s (s.entry i).dep_modules known links enough
              known1 in
          enabled is
            (mark_dependencies-Marks depth s (s.entry i).dep_modules known links enough known1)
            (mark_enabled-Builds depth s1 l known
              (mark_dependencies-HasLinks modules deps on depth s (s.entry i).dep_modules links)
              (omega (arith, enough, unmarked-more s s1 modules run.more)) inside))
        (λ is. disabled is (mark_enabled-Builds depth s l known links enough inside))

-- Where every dependency is a registered module, buildEnabledTree ends, whatever cycles there are: behind the reset of
-- the marks, its loop and the recursive calls of markDependencies have a finite run, of which the only
-- result is that of `build_enabled_tree`.
pub build_enabled_tree_terminates :
    (s : System)
    → IsClosed s
    → Builds (unmark_all s s.modules) s.modules (build_enabled_tree s)
      × ((t : System) → Builds (unmark_all s s.modules) s.modules t → t ≡ build_enabled_tree s)
unfolding build_enabled_tree
build_enabled_tree_terminates s closed =
    let reset = unmark_all s s.modules in
    let run =
      mark_enabled-Builds s.modules (λ i. (s.entry i).dep_modules) (λ i. (s.entry i).enabled)
        (suc (count s.modules)) reset s.modules closed
        (unmark_all-HasLinks s.modules _ _ s s.modules (λ i. (refl, refl)))
        (omega (arith, unmarked-count reset s.modules)) (has-All _ s.modules (λ d e. e)) in
    (run, λ t other. Builds-unique other run)
