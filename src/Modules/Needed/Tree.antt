-- ===== src/Modules/Needed/Tree.antt =====
-- modules/mgmt.go: buildEnabledTree marks the dependencies of enabled modules, and theirs, and no others.
use portbase.Prelude.{
  ℕ, suc, ◌<◌, ◌≡◌, ◌⊎◌, ◌↔◌, inl, inr, refl, sym, ◌∙◌, true, false, Bool-cases, arith,
}
use mathlib.Core.Bool.{false≢true}
use portbase.Modules.{System}
use portbase.Modules.Depend.{has, unmark_all, mark_enabled, build_enabled_tree, count}
use portbase.Modules.Needed.{marked, AllMarked, HasLinks}
use portbase.Modules.Needed.Sweep.{
  Needed, IsClosed, All-has, has-All, unmarked-count, unmark_all-marked, unmark_all-HasLinks, Sweep,
  mark_enabled-Sweep, mark_enabled-only,
}

module _ (s : System) (closed : IsClosed s) (depth : ℕ) (enough : count s.modules < depth) where
  -- buildEnabledTree with any bound that is large enough.
  tree : System
  tree = mark_enabled depth (unmark_all s s.modules) s.modules

  Needed-In : {d : ℕ} → Needed s d → has d s.modules ≡ true
  Needed-In (Needed.by_enabled i d registered enabled depends) =
      All-has (λ e. has e s.modules ≡ true) d (s.entry i).dep_modules (closed i registered) depends
  Needed-In (Needed.by_needed i d needed depends) =
      All-has (λ e. has e s.modules ≡ true) d (s.entry i).dep_modules (closed i (Needed-In needed))
        depends

  reset_links :
      HasLinks s.modules
        (λ i. (s.entry i).dep_modules)
        (λ i. (s.entry i).enabled)
        (unmark_all s s.modules)
  reset_links = unmark_all-HasLinks s.modules _ _ s s.modules (λ i. (refl, refl))

  sweep :
      Sweep s.modules
        (λ i. (s.entry i).dep_modules)
        (λ i. (s.entry i).enabled)
        (unmark_all s s.modules)
        tree
        s.modules
  unfolding tree
  sweep =
      mark_enabled-Sweep s.modules _ _ depth (unmark_all s s.modules) s.modules closed reset_links
        (omega (arith, enough, unmarked-count (unmark_all s s.modules) s.modules))
        (has-All _ s.modules (λ d e. e))

  Needed-marked : {d : ℕ} → Needed s d → marked tree d ≡ true
  Needed-marked (Needed.by_enabled i d registered enabled depends) =
      All-has (λ e. marked tree e ≡ true) d (s.entry i).dep_modules
        (All-has (λ j. (s.entry j).enabled ≡ true → AllMarked tree (s.entry j).dep_modules) i
          s.modules sweep.all registered enabled)
        depends
  Needed-marked (Needed.by_needed i d needed depends) =
      elim (sweep.closed i (Needed-marked needed)) [
        | inl old ↦
            absurd (false≢true (sym (unmark_all-marked s s.modules i (Needed-In needed)) ∙ old))
        | inr all ↦ All-has (λ e. marked tree e ≡ true) d (s.entry i).dep_modules all depends
      ]

  marked-Needed : (d : ℕ) → marked tree d ≡ true → Needed s d ⊎ (has d s.modules ≡ false)
  unfolding tree
  marked-Needed =
      mark_enabled-only s.modules (λ i. (s.entry i).dep_modules) (λ i. (s.entry i).enabled)
        (Needed s) (λ i. Needed s i ⊎ (has i s.modules ≡ false)) depth (unmark_all s s.modules)
        s.modules (λ i n. inl n)
        (λ i n. has-All (Needed s) (s.entry i).dep_modules (λ d e. Needed.by_needed i d n e))
        (has-All _ s.modules (λ i registered enabled.
          has-All (Needed s) (s.entry i).dep_modules
            (λ d e. Needed.by_enabled i d registered enabled e)))
        reset_links
        (λ i e. elim (Bool-cases (has i s.modules)) [
          | inl registered ↦
              absurd (false≢true (sym (unmark_all-marked s s.modules i registered) ∙ e))
          | inr unknown ↦ inr unknown
        ])

  tree-Needed : (d : ℕ) → has d s.modules ≡ true → (marked tree d ≡ true) ↔ Needed s d
  tree-Needed d registered = (
    λ e. elim (marked-Needed d e) [
      | inl needed ↦ needed
      | inr unknown ↦ absurd (false≢true (sym unknown ∙ registered))
    ],
    Needed-marked,
  )

-- Where every dependency is a registered module, buildEnabledTree marks a registered module exactly if it is needed,
-- whatever was marked before and whatever cycles there are.
pub build_enabled_tree-Needed :
    (s : System) (d : ℕ)
    → IsClosed s
    → has d s.modules ≡ true
    → (marked (build_enabled_tree s) d ≡ true) ↔ Needed s d
unfolding build_enabled_tree tree
build_enabled_tree-Needed s d closed registered =
    tree-Needed s closed (suc (count s.modules)) (omega arith) d registered
