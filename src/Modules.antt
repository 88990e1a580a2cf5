-- ===== src/Modules.antt =====
-- modules/: the life cycle of modules with dependencies. A module is known by a number, in place of its
-- name and of the pointer to it; `entry` is the store that the pointers lead to.
pub mod Status
pub mod Depend
pub mod Steps
pub mod Starting
pub mod Safety
pub mod Needed
mod Tests
use Prim.Native.String.{String}
use text.Mathlib.Text.{◌==◌ as str_eq}
use portbase.Prelude.{
  ℕ, zero, suc, ◌+◌, List, [], ◌∷◌, ◌++◌, Bool, true, false, not, ◌&&◌, ◌||◌, Option, none, some,
  ltb, leb, ◌==◌, if◌then◌else◌,
}

abbrev pub status_dead : ℕ
status_dead = 0

abbrev pub status_preparing : ℕ
status_preparing = 1

abbrev pub status_offline : ℕ
status_offline = 2

abbrev pub status_stopping : ℕ
status_stopping = 3

abbrev pub status_starting : ℕ
status_starting = 4

abbrev pub status_online : ℕ
status_online = 5

-- Failure status values.
abbrev pub failure_none : ℕ
failure_none = 0

abbrev pub failure_error : ℕ
failure_error = 3

-- The failure fields of a module.
pub record Failure : Type 0 where
  pub failure_status : ℕ
  pub failure_id : String
  pub failure_title : String
  pub failure_msg : String

-- The fields that the life cycle uses. `start_complete` and `stop_complete` say whether the channel of
-- that name is closed, and `closers` counts the calls of checkIfStopComplete between SetToIf and the close.
pub record Module : Type 0 where
  pub enabled : Bool
  pub enabled_as_dependency : Bool
  pub status : ℕ
  pub failure : Failure
  pub start_complete : Bool
  pub stop_flag : Bool
  pub stop_completed : Bool
  pub stop_complete : Bool
  pub closers : ℕ
  pub ctrl_func_running : Bool
  pub worker_cnt : ℕ
  pub task_cnt : ℕ
  pub micro_task_cnt : ℕ
  pub dep_names : List ℕ
  pub dep_modules : List ℕ
  pub dep_reverse : List ℕ

-- `modules` is the map's keys in the order in which a loop visits them.
pub record System : Type 0 where
  pub modules : List ℕ
  pub entry : ℕ → Module
  pub module_mgmt_enabled : Bool
  pub shutdown_flag : Bool

abbrev pub write : System → ℕ → Module → System
write s i m = record s { entry = λ j. if j == i then m else s.entry j }

pub data Ready : Type 0 where
  waiting ready nothing_to_do : Ready

-- Whether every listed module has the status, or a later one.
abbrev pub all_from : System → ℕ → List ℕ → Bool
all_from s bound [] = true
all_from s bound (d ∷ ds) = if ltb (s.entry d).status bound then false else all_from s bound ds

abbrev pub none_above : System → ℕ → List ℕ → Bool
none_above s bound [] = true
none_above s bound (d ∷ ds) = if ltb bound (s.entry d).status then false else none_above s bound ds

unfoldable pub ready_to_prep : System → ℕ → Ready
ready_to_prep s i =
    if not ((s.entry i).status == status_dead)
    then nothing_to_do
    else if all_from s status_offline (s.entry i).dep_modules
    then ready
    else waiting

unfoldable pub ready_to_start : System → ℕ → Ready
ready_to_start s i =
    if s.module_mgmt_enabled && (not (s.entry i).enabled && not (s.entry i).enabled_as_dependency)
    then nothing_to_do
    else if not ((s.entry i).status == status_offline)
    then nothing_to_do
    else if all_from s status_online (s.entry i).dep_modules
    then ready
    else waiting

unfoldable pub ready_to_stop : System → ℕ → Ready
ready_to_stop s i =
    if (s.module_mgmt_enabled && not s.shutdown_flag)
      && ((s.entry i).enabled || (s.entry i).enabled_as_dependency)
    then nothing_to_do
    else if not ((s.entry i).status == status_online)
    then nothing_to_do
    else if none_above s status_offline (s.entry i).dep_reverse
    then ready
    else waiting

unfoldable pub online_soon : System → ℕ → Bool
online_soon s i =
    if s.module_mgmt_enabled && (not (s.entry i).enabled && not (s.entry i).enabled_as_dependency)
    then false
    else not (s.entry i).stop_flag
