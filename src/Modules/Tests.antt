-- ===== src/Modules/Tests.antt =====
-- Two modules, the second depending on the first.
use portbase.Prelude.{
  ℕ, ◌≤◌, ◌≡◌, ◌↔◌, refl, List, [], ◌∷◌, true, false, none, some, ◌==◌, if◌then◌else◌, arith,
  Bool-cases, inl, inr,
}
use portbase.Modules.{System, Module, write, ready_to_prep, ready_to_start}
use portbase.Modules.Status.{no_failure, prep, prepped, start, started}
use portbase.Modules.Depend.{
  has, add_dependency, add_reverse, link, link_names, link_modules, init_dependencies,
}
use portbase.Modules.Depend.{unmark_all, build_enabled_tree}
use portbase.Modules.Needed.{marked}
use portbase.Modules.Needed.Sweep.{Needed, IsClosed}
use portbase.Modules.Needed.Tree.{build_enabled_tree-Needed}
use portbase.Modules.Needed.Runs.{Builds, build_enabled_tree_terminates}
use portbase.Modules.Steps.{
  write_if, visit_prep, visit_start, visits_prep, visits_start, preps, starts, Reach, here, next,
}
use portbase.Modules.Starting.{AreOpen, Reach-starts_once}
use portbase.Modules.Safety.{Reach-IsSafe, Reach-dependencies_online}
use portbase.Modules.Safety.Writes.{IsSafe}
use portbase.Modules.Safety.Linked.{IsFresh, IsFresh-IsSafe, init_dependencies-IsFresh}
use portbase.Modules.Safety.Names.{AreLinked, init_dependencies-AreLinked}

abbrev registered : List ℕ → Module
registered names = record {
  enabled = false;
  enabled_as_dependency = false;
  status = 0;
  failure = no_failure;
  start_complete = false;
  stop_flag = false;
  stop_completed = true;
  stop_complete = false;
  closers = 0;
  ctrl_func_running = false;
  worker_cnt = 0;
  task_cnt = 0;
  micro_task_cnt = 0;
  dep_names = names;
  dep_modules = [];
  dep_reverse = [];
}

abbrev two : System
two = record {
  modules = 0 ∷ 1 ∷ [];
  entry = λ i. if i == 1 then registered (0 ∷ []) else registered [];
  module_mgmt_enabled = false;
  shutdown_flag = false;
}

two-IsFresh : IsFresh two
two-IsFresh = record {
  dead = λ i. elim (Bool-cases (i == 1)) [ inl is ↦ rw is refl | inr other ↦ rw other refl ];
  links = λ i d e. elim (Bool-cases (i == 1)) [ inl is ↦ ground arith | inr other ↦ ground arith ];
}

abbrev linked_two : System
linked_two = add_reverse (add_dependency two 1 0) 1 0

linked_two_lem : init_dependencies two ≡ some linked_two
unfolding init_dependencies link_modules link_names link
linked_two_lem = refl

init_dependencies-AreLinked_example : AreLinked two linked_two × IsSafe linked_two
init_dependencies-AreLinked_example =
    init_dependencies-AreLinked two linked_two two-IsFresh linked_two_lem

-- The first module is prepared and started, then the second.
abbrev s1 : System
s1 = visit_prep linked_two 0

abbrev s2 : System
s2 = write s1 0 (prepped none (s1.entry 0))

abbrev s3 : System
s3 = visit_start s2 0

abbrev s4 : System
s4 = write_if s3 0 (started none (s3.entry 0))

abbrev s5 : System
s5 = visit_prep s4 1

abbrev s6 : System
s6 = write s5 1 (prepped none (s5.entry 1))

abbrev s7 : System
s7 = visit_start s6 1

run : Reach linked_two s7
unfolding visit_prep visit_start ready_to_prep ready_to_start prep prepped start started
    add_dependency add_reverse
run =
    next
      (next
        (next
          (next (next (next (next here (visits_prep 0)) (preps 0 none refl)) (visits_start 0))
            (starts 0 none _ refl refl))
          (visits_prep 1))
        (preps 1 none refl))
      (visits_start 1)

s7_depends : has 0 (s7.entry 1).dep_modules ≡ true
unfolding visit_prep visit_start ready_to_prep ready_to_start prep prepped start started
    add_dependency add_reverse
s7_depends = refl

s7_starting : (s7.entry 1).status ≡ 4
unfolding visit_prep visit_start ready_to_prep ready_to_start prep prepped start started
    add_dependency add_reverse
s7_starting = refl

Reach-IsSafe_example : IsSafe s7
Reach-IsSafe_example = Reach-IsSafe run (
    IsFresh-IsSafe linked_two (init_dependencies-IsFresh two linked_two two-IsFresh linked_two_lem))

Reach-dependencies_online_example : 5 ≤ (s7.entry 0).status
Reach-dependencies_online_example =
    Reach-dependencies_online two linked_two s7 1 0 two-IsFresh linked_two_lem run s7_depends
      (rw s7_starting (omega arith))

linked_two-AreOpen : AreOpen linked_two
unfolding add_dependency add_reverse
linked_two-AreOpen i e = elim (Bool-cases (i == 0)) [
  | inl is ↦ ground arith
  | inr other ↦ ground arith
]

-- The first module, before its start function ends.
s3_steps : Reach linked_two s3
unfolding visit_prep ready_to_prep prep add_dependency add_reverse
s3_steps = next (next (next here (visits_prep 0)) (preps 0 none refl)) (visits_start 0)

s3_starting : (s3.entry 0).status ≡ 4
unfolding visit_prep visit_start ready_to_prep ready_to_start prep prepped start add_dependency
    add_reverse
s3_starting = refl

Reach-starts_once_example : (m' : Module) × (started none (s3.entry 0) ≡ some m') × (m'.status ≡ 5)
Reach-starts_once_example = Reach-starts_once 0 none linked_two-AreOpen s3_steps s3_starting

-- The second module is enabled.
abbrev enabled_two : System
enabled_two = record {
  modules = 0 ∷ 1 ∷ [];
  entry = λ i.
      if i == 1
      then record (registered []) { enabled = true; dep_modules = 0 ∷ [] }
      else registered [];
  module_mgmt_enabled = true;
  shutdown_flag = false;
}

enabled_two-IsClosed : IsClosed enabled_two
enabled_two-IsClosed i h = elim (Bool-cases (i == 1)) [
  | inl is ↦ rw is (refl, tt)
  | inr other ↦ rw other tt
]

build_enabled_tree-Needed_example :
    (marked (build_enabled_tree enabled_two) 0 ≡ true) ↔ Needed enabled_two 0
build_enabled_tree-Needed_example =
    build_enabled_tree-Needed enabled_two 0 enabled_two-IsClosed refl

build_enabled_tree_terminates_example :
    Builds (unmark_all enabled_two (0 ∷ 1 ∷ [])) (0 ∷ 1 ∷ []) (build_enabled_tree enabled_two)
    × ((t : System)
        → Builds (unmark_all enabled_two (0 ∷ 1 ∷ [])) (0 ∷ 1 ∷ []) t
        → t ≡ build_enabled_tree enabled_two)
build_enabled_tree_terminates_example =
    build_enabled_tree_terminates enabled_two enabled_two-IsClosed
