-- ===== src/Polling/Tasks.antt =====
-- src/polling/tasks.rs: the diff of two snapshots of the scheduled tasks, and the loop of polls. What `scan_tasks`
-- finds comes with each poll; the text of a digest and the name in a path are left to the reader of the payload.
pub mod Diff
use wazabi_edr_agent.Prelude.{
  ℕ, Bool, true, false, ◌&&◌, List, [], ◌∷◌, ◌++◌, Option, none, some, String, ◌==◌, if◌then◌else◌,
}
use wazabi_edr_agent.Prelude.Text.{Dict, lookup}
use wazabi_edr_agent.Polling.Envelope.{
  et_task_create, et_task_modify, et_task_delete, PersistenceEvent,
}

pub record TaskSnapshot : Type 0 where
  pub mtime : ℕ
  pub digest : ℕ
  pub size : ℕ

-- The derived `PartialEq`.
unfoldable pub same_task : TaskSnapshot → TaskSnapshot → Bool
same_task a b =
    TaskSnapshot.mtime a == TaskSnapshot.mtime b
    && (TaskSnapshot.digest a == TaskSnapshot.digest b
        && TaskSnapshot.size a == TaskSnapshot.size b)

pub record TaskPayload : Type 0 where
  pub task_path : String
  pub snap : TaskSnapshot
  pub previous : Option TaskSnapshot

abbrev pub TaskEvent : Type 0
TaskEvent = PersistenceEvent TaskPayload

-- An event as `emit` builds it, with its payload from `build_payload`.
abbrev pub task_event : String → String → String → TaskSnapshot → Option TaskSnapshot → TaskEvent
task_event event_type kind path snap previous = record {
  event_type = event_type;
  kind = kind;
  event_version = 1;
  payload = record { task_path = path; snap = snap; previous = previous };
}

unfoldable pub task_one : Dict TaskSnapshot → String → TaskSnapshot → List TaskEvent
unfolding same_task
task_one prev path snap = elim (lookup prev path) [
  | none ↦ task_event et_task_create "ScheduledTaskCreate" path snap none ∷ []
  | some old ↦
      if same_task old snap
      then []
      else task_event et_task_modify "ScheduledTaskModify" path snap (some old) ∷ []
]

unfoldable pub tasks_next : Dict TaskSnapshot → Dict TaskSnapshot → List TaskEvent
tasks_next prev [] = []
tasks_next prev ((path, snap) ∷ rest) = task_one prev path snap ++ tasks_next prev rest

unfoldable pub task_gone : Dict TaskSnapshot → String → TaskSnapshot → List TaskEvent
task_gone next path old = elim (lookup next path) [
  | none ↦ task_event et_task_delete "ScheduledTaskDelete" path old none ∷ []
  | some snap ↦ []
]

unfoldable pub tasks_gone : Dict TaskSnapshot → Dict TaskSnapshot → List TaskEvent
tasks_gone next [] = []
tasks_gone next ((path, old) ∷ rest) = task_gone next path old ++ tasks_gone next rest

-- `diff_and_emit`: the events handed to `emit`, in order.
unfoldable pub task_diff : Dict TaskSnapshot → Dict TaskSnapshot → List TaskEvent
task_diff prev next = tasks_next prev next ++ tasks_gone next prev

-- The locals of `run`, and the events handed to `emit` so far.
pub record TaskState : Type 0 where
  pub prev : Dict TaskSnapshot
  pub first : Bool
  pub reported : List TaskEvent

-- One round; `none` is a root that cannot be read.
unfoldable pub task_poll : Bool → TaskState → Option (Dict TaskSnapshot) → TaskState
task_poll silent_first s none = s
task_poll silent_first s (some snapshot) =
    if TaskState.first s && silent_first
    then record s { prev = snapshot; first = false }
    else record s {
      prev = snapshot;
      first = false;
      reported = TaskState.reported s ++ task_diff (TaskState.prev s) snapshot;
    }
