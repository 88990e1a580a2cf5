-- ===== src/Modules/Steps.antt =====
-- The steps of the module system, in any order: the manager's loops visit modules, the goroutines of
-- the control functions end, work is counted and checked, and modules are enabled, fail and shut down at any time.
use Prim.Native.String.{String}
use portbase.Prelude.{ℕ, ◌<◌, ◌≡◌, Bool, Option, none, some}
use portbase.Modules.{
  System, Module, Failure, Ready, ready, waiting, nothing_to_do, write, ready_to_prep,
  ready_to_start, ready_to_stop, status_preparing, status_starting, status_stopping,
}
use portbase.Modules.Status.{
  set_failure, resolve, prep, prepped, start, started, stop, stop_all_tasks, stopped,
  check_if_stop_complete, close_stop_complete,
}
use portbase.Modules.Depend.{build_enabled_tree}

-- What a module becomes; it stays as it is where the call reports an error.
abbrev pub write_if : System → ℕ → Option Module → System
write_if s i none = s
write_if s i (some m) = write s i m

abbrev pub if_ready : Ready → System → System → System
if_ready ready s s' = s'
if_ready waiting s s' = s
if_ready nothing_to_do s s' = s

-- One visit of a module by prepareModules, startModules and stopModules.
unfoldable pub visit_prep : System → ℕ → System
visit_prep s i = if_ready (ready_to_prep s i) s (write_if s i (prep (s.entry i)))

unfoldable pub visit_start : System → ℕ → System
visit_start s i = if_ready (ready_to_start s i) s (write_if s i (start (s.entry i)))

unfoldable pub visit_stop : System → ℕ → System
visit_stop s i = if_ready (ready_to_stop s i) s (write_if s i (stop (s.entry i)))

-- The end of a control function is only met where its start has set the status. A call of checkIfStopComplete is two
-- steps, its tests with SetToIf and its close, between which others may come. A panic is no step.
pub data Step (s : System) : System → Type 0 where
  visits_prep : (i : ℕ) → Step s (visit_prep s i)
  visits_start : (i : ℕ) → Step s (visit_start s i)
  visits_stop : (i : ℕ) → Step s (visit_stop s i)
  preps :
      (i : ℕ) (f : Option Failure)
      → (s.entry i).status ≡ status_preparing
      → Step s (write s i (prepped f (s.entry i)))
  starts :
      (i : ℕ) (f : Option Failure) (m : Module)
      → (s.entry i).status ≡ status_starting
      → started f (s.entry i) ≡ some m
      → Step s (write s i m)
  stopping : (i : ℕ) → Step s (write s i (stop_all_tasks (s.entry i)))
  stops :
      (i : ℕ) (f : Option Failure)
      → (s.entry i).status ≡ status_stopping
      → Step s (write s i (stopped f (s.entry i)))
  checks : (i : ℕ) → Step s (write s i (check_if_stop_complete (s.entry i)))
  closes :
      (i : ℕ) (m : Module)
      → 0 < (s.entry i).closers
      → close_stop_complete (s.entry i) ≡ some m
      → Step s (write s i m)
  counts :
      (i : ℕ) (running : Bool) (workers tasks micro_tasks : ℕ)
      → Step s (
          write s i (record (s.entry i) {
            ctrl_func_running = running;
            worker_cnt = workers;
            task_cnt = tasks;
            micro_task_cnt = micro_tasks;
          }))
  enables : (i : ℕ) (on : Bool) → Step s (write s i (record (s.entry i) { enabled = on }))
  fails : (i : ℕ) (f : Failure) → Step s (write s i (set_failure f (s.entry i)))
  resolves : (i : ℕ) (id : String) → Step s (write s i (resolve id (s.entry i)))
  builds_tree : Step s (build_enabled_tree s)
  manages : (on : Bool) → Step s (record s { module_mgmt_enabled = on })
  shuts_down : Step s (record s { shutdown_flag = Bool.true })

pub data Reach (s : System) : System → Type 0 where
  here : Reach s s
  next : {t u : System} → Reach s t → Step t u → Reach s u
