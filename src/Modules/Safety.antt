-- ===== src/Modules/Safety.antt =====
-- The invariant of the module system under each step, and in the systems that can be reached.
pub mod Writes
pub mod Flags
pub mod Linked
pub mod Names
use Prim.Native.String.{String}
use mathlib.Core.Path.{subst}
use mathlib.Core.Option.{some-injective, none-ne-some}
use portbase.Prelude.{
  ap, sym, ℕ, ◌≤◌, ◌<◌, ◌≡◌, ◌≢◌, refl, sym, ◌∙◌, Bool, true, false, not, ◌&&◌, ◌||◌, Option, none,
  some, ltb, ◌==◌, if◌then◌else◌, arith, ==_iff, Bool-cases, inl, inr,
}
use portbase.Modules.{
  System, Module, Failure, Ready, ready, waiting, nothing_to_do, write, ready_to_prep,
  ready_to_start, ready_to_stop, all_from, none_above,
}
use portbase.Modules.Status.{
  set_failure, resolve, prep, prepped, start, started, stop, stop_all_tasks, stopped,
  check_if_stop_complete,
}
use portbase.Modules.Depend.{has, init_dependencies}
use portbase.Modules.Steps.{
  if_ready, write_if, visit_prep, visit_start, visit_stop, Step, visits_prep, visits_start,
  visits_stop, preps, starts, stopping, stops, checks, closes, counts, enables, fails, resolves,
  builds_tree, manages, shuts_down, Reach, here, next,
}
use Writes.{
  IsSafe, Same-IsSafe, Same-write, all_from-has, none_above-has, write-IsSafe, write-IsSafe_kept,
}
use Linked.{IsFresh, IsFresh-IsSafe, init_dependencies-IsFresh}
use Flags.{
  unless_inv, check_if_stop_complete-Alike, close_stop_complete-Alike, set_failure-Alike,
  resolve-Alike, build_enabled_tree-Same,
}

if_ready-IsSafe :
    {s t : System} (r : Ready) → IsSafe s → (r ≡ ready → IsSafe t) → IsSafe (if_ready r s t)
if_ready-IsSafe ready h new = new refl
if_ready-IsSafe waiting h new = h
if_ready-IsSafe nothing_to_do h new = h

if-ready_inv :
    (b : Bool) (r : Ready) → (if b then nothing_to_do else r) ≡ ready → (b ≡ false) × (r ≡ ready)
if-ready_inv true r e = ground arith
if-ready_inv false r e = (refl, e)

all-ready_inv : (b : Bool) → (if b then ready else waiting) ≡ ready → b ≡ true
all-ready_inv true e = refl
all-ready_inv false e = ground arith

is_status : (a b : ℕ) → not (a == b) ≡ false → a ≡ b
is_status a b e = ground arith

-- What being ready says.
ready_to_prep_inv :
    (s : System) (i : ℕ)
    → ready_to_prep s i ≡ ready
    → ((s.entry i).status ≡ 0) × (all_from s 2 (s.entry i).dep_modules ≡ true)
unfolding ready_to_prep
ready_to_prep_inv s i e =
    let first = if-ready_inv (not ((s.entry i).status == 0)) _ e in
    (is_status _ 0 first.0, all-ready_inv _ first.1)

ready_to_start_inv :
    (s : System) (i : ℕ)
    → ready_to_start s i ≡ ready
    → ((s.entry i).status ≡ 2) × (all_from s 5 (s.entry i).dep_modules ≡ true)
unfolding ready_to_start
ready_to_start_inv s i e =
    let first = if-ready_inv _ _ e in
    let second = if-ready_inv (not ((s.entry i).status == 2)) _ first.1 in
    (is_status _ 2 second.0, all-ready_inv _ second.1)

ready_to_stop_inv :
    (s : System) (i : ℕ)
    → ready_to_stop s i ≡ ready
    → ((s.entry i).status ≡ 5) × (none_above s 2 (s.entry i).dep_reverse ≡ true)
unfolding ready_to_stop
ready_to_stop_inv s i e =
    let first = if-ready_inv _ _ e in
    let second = if-ready_inv (not ((s.entry i).status == 5)) _ first.1 in
    (is_status _ 5 second.0, all-ready_inv _ second.1)

-- A module with a status that the other one has not reached is another module.
other_status :
    (s : System) (d i bound : ℕ) → bound ≤ (s.entry d).status → (s.entry i).status < bound → d ≢ i
other_status s d i bound high low e = let up = rw e at high in omega arith

prep-IsSafe :
    (s : System) (i : ℕ)
    → IsSafe s
    → (s.entry i).status ≡ 0
    → all_from s 2 (s.entry i).dep_modules ≡ true
    → IsSafe (write_if s i (prep (s.entry i)))
unfolding prep
prep-IsSafe s i h e all = rw ((==_iff (s.entry i).status 0).1 e) (
    write-IsSafe s h i _ refl refl (λ d m r. omega arith)
      (λ j m r. let up = h.running j i m r in omega arith)
      (λ d m r.
        let up = all_from-has s 2 d (s.entry i).dep_modules all m in
        (other_status s d i 2 up (omega arith), up))
      (λ j m r. let up = h.prepared j i m r in omega arith))

start-IsSafe :
    (s : System) (i : ℕ)
    → IsSafe s
    → (s.entry i).status ≡ 2
    → all_from s 5 (s.entry i).dep_modules ≡ true
    → IsSafe (write_if s i (start (s.entry i)))
unfolding start
start-IsSafe s i h e all = rw ((==_iff (s.entry i).status 2).1 e) (
    write-IsSafe s h i _ refl refl
      (λ d m r.
        let up = all_from-has s 5 d (s.entry i).dep_modules all m in
        (other_status s d i 5 up (omega arith), up))
      (λ j m r. let up = h.running j i m r in omega arith)
      (λ d m r.
        let up = all_from-has s 5 d (s.entry i).dep_modules all m in
        (other_status s d i 5 up (omega arith), omega arith))
      (λ j m r. omega arith))

stop-IsSafe :
    (s : System) (i : ℕ)
    → IsSafe s
    → (s.entry i).status ≡ 5
    → none_above s 2 (s.entry i).dep_reverse ≡ true
    → IsSafe (write_if s i (stop (s.entry i)))
unfolding stop
stop-IsSafe s i h e all =
    let down : (j : ℕ) → has i (s.entry j).dep_modules ≡ true → (s.entry j).status ≤ 2 =
      λ j m. none_above-has s 2 j (s.entry i).dep_reverse all (h.linked j i m) in
    rw ((==_iff (s.entry i).status 5).1 e) (
      write-IsSafe s h i _ refl refl
        (λ d m r.
          (λ q. let low = down i (rw q at m) in omega arith, h.running i d m (rw e (omega arith))))
        (λ j m r. let low = down j m in omega arith)
        (λ d m r.
          let up = h.running i d m (rw e (omega arith)) in
          (λ q. let low = down i (rw q at m) in omega arith, omega arith))
        (λ j m r. omega arith))

-- The end of the prep function.
prepped-IsSafe :
    (s : System) (i : ℕ) (f : Option Failure)
    → IsSafe s
    → (s.entry i).status ≡ 1
    → IsSafe (write s i (prepped f (s.entry i)))
unfolding prepped
prepped-IsSafe s i (some f) h e = Same-IsSafe (Same-write s i _ (set_failure-Alike f (s.entry i))) h
prepped-IsSafe s i none h e =
    write-IsSafe s h i _ refl refl (λ d m r. omega arith)
      (λ j m r. let up = h.running j i m r in omega arith)
      (λ d m r.
        let up = h.prepared i d m (rw e (omega arith)) in
        (other_status s d i 2 up (omega arith), up))
      (λ j m r. omega arith)

started-IsSafe :
    (s : System) (i : ℕ) (f : Option Failure) (m : Module)
    → IsSafe s
    → (s.entry i).status ≡ 4
    → started f (s.entry i) ≡ some m
    → IsSafe (write s i m)
unfolding started
started-IsSafe s i (some f) m h e is =
    subst (λ k. IsSafe (write s i k)) (some-injective _ m is)
      (Same-IsSafe (Same-write s i _ (set_failure-Alike f (s.entry i))) h)
started-IsSafe s i none m h e is =
    subst (λ k. IsSafe (write s i k)) (unless_inv (s.entry i).start_complete _ m is)
      (write-IsSafe s h i _ refl refl
        (λ d k r.
          let up = h.running i d k (rw e (omega arith)) in
          (other_status s d i 5 up (omega arith), up))
        (λ j k r. omega arith)
        (λ d k r.
          let up = h.running i d k (rw e (omega arith)) in
          (other_status s d i 5 up (omega arith), omega arith))
        (λ j k r. omega arith))

-- The status after the end of the stop function, whatever it returned.
offline-IsSafe :
    (s : System) (i : ℕ) (m : Module)
    → IsSafe s
    → (s.entry i).status ≡ 3
    → m.status ≡ 2
    → m.dep_modules ≡ (s.entry i).dep_modules
    → m.dep_reverse ≡ (s.entry i).dep_reverse
    → IsSafe (write s i m)
offline-IsSafe s i m h e off deps reverse =
    write-IsSafe s h i m deps reverse (λ d k r. omega arith)
      (λ j k r. let up = h.running j i k r in omega arith)
      (λ d k r.
        let up = h.running i d k (rw e (omega arith)) in
        (other_status s d i 5 up (omega arith), omega arith))
      (λ j k r. omega arith)

stopped-IsSafe :
    (s : System) (i : ℕ) (f : Option Failure)
    → IsSafe s
    → (s.entry i).status ≡ 3
    → IsSafe (write s i (stopped f (s.entry i)))
unfolding stopped
stopped-IsSafe s i (some f) h e =
    let kept = set_failure-Alike f (s.entry i) in
    let after = resolve-Alike "" (record (set_failure f (s.entry i)) { status = 2 }) in
    offline-IsSafe s i _ h e after.status (after.deps ∙ kept.deps)
      (after.reverse_deps ∙ kept.reverse_deps)
stopped-IsSafe s i none h e =
    let after = resolve-Alike "" (record (s.entry i) { status = 2 }) in
    offline-IsSafe s i _ h e after.status after.deps after.reverse_deps

visit_prep-IsSafe : (s : System) (i : ℕ) → IsSafe s → IsSafe (visit_prep s i)
unfolding visit_prep
visit_prep-IsSafe s i h =
    if_ready-IsSafe (ready_to_prep s i) h
      (λ e. let says = ready_to_prep_inv s i e in prep-IsSafe s i h says.0 says.1)

visit_start-IsSafe : (s : System) (i : ℕ) → IsSafe s → IsSafe (visit_start s i)
unfolding visit_start
visit_start-IsSafe s i h =
    if_ready-IsSafe (ready_to_start s i) h
      (λ e. let says = ready_to_start_inv s i e in start-IsSafe s i h says.0 says.1)

visit_stop-IsSafe : (s : System) (i : ℕ) → IsSafe s → IsSafe (visit_stop s i)
unfolding visit_stop
visit_stop-IsSafe s i h =
    if_ready-IsSafe (ready_to_stop s i) h
      (λ e. let says = ready_to_stop_inv s i e in stop-IsSafe s i h says.0 says.1)

Step-IsSafe : {s t : System} → Step s t → IsSafe s → IsSafe t
unfolding stop_all_tasks
Step-IsSafe {s} (visits_prep i) h = visit_prep-IsSafe s i h
Step-IsSafe {s} (visits_start i) h = visit_start-IsSafe s i h
Step-IsSafe {s} (visits_stop i) h = visit_stop-IsSafe s i h
Step-IsSafe {s} (preps i f e) h = prepped-IsSafe s i f h e
Step-IsSafe {s} (starts i f m e is) h = started-IsSafe s i f m h e is
Step-IsSafe {s} (stopping i) h =
    Same-IsSafe
      (Same-write s i _ (record { status = refl; deps = refl; reverse_deps = refl; ready = refl }))
      h
Step-IsSafe {s} (stops i f e) h = stopped-IsSafe s i f h e
Step-IsSafe {s} (checks i) h =
    Same-IsSafe (Same-write s i _ (check_if_stop_complete-Alike (s.entry i))) h
Step-IsSafe {s} (closes i m pending is) h =
    Same-IsSafe (Same-write s i m (close_stop_complete-Alike (s.entry i) m is)) h
Step-IsSafe {s} (counts i r w t k) h =
    Same-IsSafe
      (Same-write s i _ (record { status = refl; deps = refl; reverse_deps = refl; ready = refl }))
      h
Step-IsSafe {s} (enables i on) h =
    Same-IsSafe
      (Same-write s i _ (record { status = refl; deps = refl; reverse_deps = refl; ready = refl }))
      h
Step-IsSafe {s} (fails i f) h = Same-IsSafe (Same-write s i _ (set_failure-Alike f (s.entry i))) h
Step-IsSafe {s} (resolves i id) h = Same-IsSafe (Same-write s i _ (resolve-Alike id (s.entry i))) h
Step-IsSafe {s} builds_tree h = Same-IsSafe (build_enabled_tree-Same s) h
Step-IsSafe {s} (manages on) h =
    Same-IsSafe
      (record { status = λ j. refl; deps = λ j. refl; reverse_deps = λ j. refl; ready = λ j. refl })
      h
Step-IsSafe {s} shuts_down h =
    Same-IsSafe
      (record { status = λ j. refl; deps = λ j. refl; reverse_deps = λ j. refl; ready = λ j. refl })
      h

-- The invariant of the module system holds in every system that steps lead to, in whatever order they
-- are made, from one in which it holds: dependencies are linked both ways, those of a module that is
-- starting, online or stopping are online, and those of one that is not dead are prepared.
pub Reach-IsSafe : {s t : System} → Reach s t → IsSafe s → IsSafe t
Reach-IsSafe here h = h
Reach-IsSafe (next before step) h = Step-IsSafe step (Reach-IsSafe before h)

-- From modules that were only registered, whose dependencies initDependencies found, no order of steps
-- leads to a system in which a module is starting, online or stopping while one of its dependencies is
-- not online.
pub Reach-dependencies_online :
    (s t u : System) (i d : ℕ)
    → IsFresh s
    → init_dependencies s ≡ some t
    → Reach t u
    → has d (u.entry i).dep_modules ≡ true
    → 2 < (u.entry i).status
    → 5 ≤ (u.entry d).status
Reach-dependencies_online s t u i d fresh linked steps depends runs =
    (Reach-IsSafe steps (IsFresh-IsSafe t (init_dependencies-IsFresh s t fresh linked))).running i d
      depends runs
