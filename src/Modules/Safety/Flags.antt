-- ===== src/Modules/Safety/Flags.antt =====
-- The steps that leave every status and every link alone.
use Prim.Native.String.{String}
use text.Mathlib.Text.{◌==◌ as str_eq}
use mathlib.Core.Option.{some-injective, none-ne-some}
use mathlib.Core.Path.{subst}
use portbase.Prelude.{
  ◌≡◌, none, some, ℕ, zero, suc, refl, List, [], ◌∷◌, Bool, true, false, not, ◌&&◌, if◌then◌else◌,
}
use portbase.Modules.{System, Module, Failure}
use portbase.Modules.Status.{set_failure, resolve, check_if_stop_complete, close_stop_complete}
use portbase.Modules.Depend.{mark, unmark_all, mark_dependencies, mark_enabled, build_enabled_tree}
use portbase.Modules.Safety.Writes.{Same, Same-refl, Same-trans, Same-write, Alike}

if-Alike : {m x y : Module} (b : Bool) → Alike m x → Alike m y → Alike m (if b then x else y)
if-Alike true p q = p
if-Alike false p q = q

abbrev Alike-refl : (m : Module) → Alike m m
Alike-refl m = record { status = refl; deps = refl; reverse_deps = refl; ready = refl }

pub set_failure-Alike : (f : Failure) (m : Module) → Alike m (set_failure f m)
unfolding set_failure
set_failure-Alike f m =
    if-Alike (str_eq f.failure_id m.failure.failure_id) (Alike-refl m)
      (record { status = refl; deps = refl; reverse_deps = refl; ready = refl })

pub resolve-Alike : (id : String) (m : Module) → Alike m (resolve id m)
unfolding resolve
resolve-Alike id m =
    if-Alike (not (str_eq id "") && not (str_eq id m.failure.failure_id)) (Alike-refl m)
      (record { status = refl; deps = refl; reverse_deps = refl; ready = refl })

pub unless_inv {ℓ} :
    {A : Type ℓ} (b : Bool) (x y : A) → (if b then none else some x) ≡ some y → x ≡ y
unless_inv true x y e = absurd (none-ne-some y e)
unless_inv false x y e = some-injective x y e

-- The two parts of checkIfStopComplete.
pub check_if_stop_complete-Alike : (m : Module) → Alike m (check_if_stop_complete m)
unfolding check_if_stop_complete
check_if_stop_complete-Alike m =
    if-Alike _
      (if-Alike m.stop_completed (Alike-refl m)
        (record { status = refl; deps = refl; reverse_deps = refl; ready = refl }))
      (Alike-refl m)

pub close_stop_complete-Alike : (m m' : Module) → close_stop_complete m ≡ some m' → Alike m m'
unfolding close_stop_complete
close_stop_complete-Alike m m' e =
    subst (Alike m) (unless_inv m.stop_complete _ m' e)
      (record { status = refl; deps = refl; reverse_deps = refl; ready = refl })

-- Marking what the enabled modules need.
mark-Same : (s : System) (i : ℕ) (on : Bool) → Same s (mark s i on)
unfolding mark
mark-Same s i on =
    Same-write s i _ (record { status = refl; deps = refl; reverse_deps = refl; ready = refl })

unmark_all-Same : (s : System) (l : List ℕ) → Same s (unmark_all s l)
unfolding unmark_all
unmark_all-Same s [] = Same-refl s
unmark_all-Same s (i ∷ rest) =
    Same-trans (mark-Same s i false) (unmark_all-Same (mark s i false) rest)

if-Same : {s t u : System} (b : Bool) → Same s t → Same s u → Same s (if b then t else u)
if-Same true p q = p
if-Same false p q = q

mark_dependencies-Same :
    (depth : ℕ) (s : System) (l : List ℕ) → Same s (mark_dependencies depth s l)
unfolding mark_dependencies
mark_dependencies-Same zero s l = Same-refl s
mark_dependencies-Same (suc depth) s [] = Same-refl s
mark_dependencies-Same (suc depth) s (d ∷ deps) =
    if-Same (s.entry d).enabled_as_dependency (mark_dependencies-Same (suc depth) s deps) (
      Same-trans
        (Same-trans (mark-Same s d true)
          (mark_dependencies-Same depth (mark s d true) (s.entry d).dep_modules))
        (mark_dependencies-Same (suc depth)
          (mark_dependencies depth (mark s d true) (s.entry d).dep_modules) deps))

mark_enabled-Same : (depth : ℕ) (s : System) (l : List ℕ) → Same s (mark_enabled depth s l)
unfolding mark_enabled
mark_enabled-Same depth s [] = Same-refl s
mark_enabled-Same depth s (i ∷ rest) =
    Same-trans
      (if-Same (s.entry i).enabled (mark_dependencies-Same depth s (s.entry i).dep_modules)
        (Same-refl s))
      (mark_enabled-Same depth
        (if (s.entry i).enabled then mark_dependencies depth s (s.entry i).dep_modules else s) rest)

pub build_enabled_tree-Same : (s : System) → Same s (build_enabled_tree s)
unfolding build_enabled_tree
build_enabled_tree-Same s =
    Same-trans (unmark_all-Same s s.modules) (mark_enabled-Same _ _ s.modules)
