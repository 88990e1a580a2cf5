-- ===== src/Modules/Status.antt =====
-- modules/modules.go and modules/status.go: what the control functions write to a module, before and
-- behind the call of the module's own function.
use Prim.Native.String.{String}
use text.Mathlib.Text.{◌==◌ as str_eq}
use portbase.Prelude.{suc, ◌-◌, true, false, not, ◌&&◌, Option, none, some, ◌==◌, if◌then◌else◌}
use portbase.Modules.{
  Module, Failure, failure_none, status_dead, status_preparing, status_offline, status_stopping,
  status_starting, status_online,
}

-- A call with the ID that is set already is ignored.
unfoldable pub set_failure : Failure → Module → Module
set_failure f m = if str_eq f.failure_id m.failure.failure_id then m else record m { failure = f }

abbrev pub no_failure : Failure
no_failure = record {
  failure_status = failure_none;
  failure_id = "";
  failure_title = "";
  failure_msg = "";
}

unfoldable pub resolve : String → Module → Module
resolve id m =
    if not (str_eq id "") && not (str_eq id m.failure.failure_id)
    then m
    else record m { failure = no_failure }

-- The start of prep; `none` is the report that the module is already prepped.
unfoldable pub prep : Module → Option Module
prep m = if m.status == status_dead then some (record m { status = status_preparing }) else none

-- Behind the prep function: `some` is its error, as the failure that is set.
unfoldable pub prepped : Option Failure → Module → Module
prepped (some f) m = set_failure f m
prepped none m = record m { status = status_offline }

-- The start of start; `none` is the report that the module is not offline.
unfoldable pub start : Module → Option Module
start m =
    if m.status == status_offline
    then some (record m { status = status_starting; stop_flag = false })
    else none

-- Behind the start function; `none` is the panic of closing a closed channel.
unfoldable pub started : Option Failure → Module → Option Module
started (some f) m = some (set_failure f m)
started none m =
    if m.start_complete
    then none
    else some (record m { status = status_online; start_complete = true })

-- The start of stop; `none` is the report that the module is not online.
unfoldable pub stop : Module → Option Module
stop m =
    if m.status == status_online
    then some (record m {
      start_complete = false;
      stop_complete = false;
      stop_completed = false;
      status = status_stopping;
    })
    else none

-- The start of stopAllTasks, up to the call of the stop function.
unfoldable pub stop_all_tasks : Module → Module
stop_all_tasks m = record m { ctrl_func_running = true; stop_flag = true }

-- The end of stopAllTasks, with the error of the stop function. All failures are resolved.
unfoldable pub stopped : Option Failure → Module → Module
stopped (some f) m = resolve "" (record (set_failure f m) { status = status_offline })
stopped none m = resolve "" (record m { status = status_offline })

-- The tests and SetToIf of checkIfStopComplete; a call that sets the flag goes on to the close.
unfoldable pub check_if_stop_complete : Module → Module
check_if_stop_complete m =
    if m.stop_flag
      && (not m.ctrl_func_running
          && (m.worker_cnt == 0 && (m.task_cnt == 0 && m.micro_task_cnt == 0)))
    then (if m.stop_completed
        then m
        else record m { stop_completed = true; closers = suc m.closers })
    else m

-- Its close, under the lock; `none` is the panic of closing a closed channel.
unfoldable pub close_stop_complete : Module → Option Module
close_stop_complete m =
    if m.stop_complete
    then none
    else some (record m { stop_complete = true; closers = m.closers - 1 })
