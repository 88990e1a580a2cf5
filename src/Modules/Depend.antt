-- ===== src/Modules/Depend.antt =====
-- modules/modules.go and modules/mgmt.go: linking the modules, and marking what enabled modules need.
use portbase.Prelude.{
  ℕ, zero, suc, List, [], ◌∷◌, ◌++◌, Bool, true, false, Option, none, some, ◌==◌, if◌then◌else◌,
}
use portbase.Modules.{System, write}

abbrev pub has : ℕ → List ℕ → Bool
has x [] = false
has x (y ∷ ys) = if x == y then true else has x ys

-- m.depModules = append(m.depModules, depModule)
unfoldable pub add_dependency : System → ℕ → ℕ → System
add_dependency s i d =
    write s i (record (s.entry i) { dep_modules = (s.entry i).dep_modules ++ d ∷ [] })

-- depModule.depReverse = append(depModule.depReverse, m)
unfoldable pub add_reverse : System → ℕ → ℕ → System
add_reverse s i d =
    write s d (record (s.entry d) { dep_reverse = (s.entry d).dep_reverse ++ i ∷ [] })

unfoldable pub link : System → ℕ → ℕ → System
link s i d = add_reverse (add_dependency s i d) i d

-- `none` is the error of a dependency that is not registered.
unfoldable pub link_names : System → ℕ → List ℕ → Option System
link_names s i [] = some s
link_names s i (d ∷ ds) =
    let rest = link_names (link s i d) i ds in if has d s.modules then rest else none

unfoldable pub link_modules : System → List ℕ → Option System
link_modules s [] = some s
link_modules s (i ∷ rest) = elim (link_names s i (s.entry i).dep_names) [
  | none ↦ none
  | some s' ↦ link_modules s' rest
]

unfoldable pub init_dependencies : System → Option System
init_dependencies s = link_modules s s.modules

unfoldable pub mark : System → ℕ → Bool → System
mark s i on = write s i (record (s.entry i) { enabled_as_dependency = on })

unfoldable pub unmark_all : System → List ℕ → System
unmark_all s [] = s
unmark_all s (i ∷ rest) = unmark_all (mark s i false) rest

-- `depth` bounds the nesting of calls: each nested call is made behind a newly set mark, so that one
-- more than the number of modules is enough.
unfoldable pub mark_dependencies : ℕ → System → List ℕ → System
mark_dependencies zero s deps = s
mark_dependencies (suc depth) s [] = s
mark_dependencies (suc depth) s (d ∷ deps) =
    let below = mark_dependencies depth (mark s d true) (s.entry d).dep_modules in
    let marked = mark_dependencies (suc depth) below deps in
    let skipped = mark_dependencies (suc depth) s deps in
    if (s.entry d).enabled_as_dependency then skipped else marked

abbrev pub count : List ℕ → ℕ
count [] = 0
count (i ∷ rest) = suc (count rest)

unfoldable pub mark_enabled : ℕ → System → List ℕ → System
mark_enabled depth s [] = s
mark_enabled depth s (i ∷ rest) =
    mark_enabled depth
      (if (s.entry i).enabled then mark_dependencies depth s (s.entry i).dep_modules else s) rest

unfoldable pub build_enabled_tree : System → System
build_enabled_tree s = mark_enabled (suc (count s.modules)) (unmark_all s s.modules) s.modules
